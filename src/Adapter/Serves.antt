-- ===== src/Adapter/Serves.antt =====
-- The adapter's callback is one that the slave can use, and what the two are together.
use modbus_c.Prelude.{
  ℕ, zero, suc, ◌+◌, ◌≤◌, ◌<◌, ◌^◌, ◌≡◌, ◌≢◌, refl, ◌∙◌, Bool, List, [], ◌∷◌, length,
  length-replicate, replicate, Exec, done, fault, stuck, ◌>>=◌, Ensures, Ends, Ends-bind, IsByte,
  IsBytes, arith,
}
use modbus_c.Memory.{rtu_memory_pdu_cb}
use modbus_c.Memory.Window.{IsWellFormed}
use modbus_c.Memory.Frame.{Framed, rtu_memory_pdu_cb-Framed}
use modbus_c.Adapter.{
  RtuMemoryImpl, rtu_memory_impl_clear, rtu_memory_impl_init, rtu_memory_impl_pdu_cb,
}
use modbus_c.Rtu.{modbus_rtu_init}
use modbus_c.Rtu.Process.{Answers, Good}
use modbus_c.Rtu.Schedule.{Event, AreEvents, run}
use modbus_c.Rtu.Invariant.{init-Inv}
use modbus_c.Rtu.Faults.{FaultsAt, run-FaultsAt}

-- Another slave's request is left alone: no reply, and the memory stays.
pub pdu_cb-other_addr :
    (impl : RtuMemoryImpl) (addr fcode : ℕ) (src : List ℕ) (begin end curr : ℕ)
    → impl.self_addr ≢ addr
    → rtu_memory_impl_pdu_cb impl addr fcode src begin end curr ≡ done (impl, [])
unfolding rtu_memory_impl_pdu_cb
pdu_cb-other_addr impl addr fcode src begin end curr h = ground arith

replicate-IsBytes : (n : ℕ) → IsBytes (replicate n 0)
replicate-IsBytes zero = tt
replicate-IsBytes (suc n) = (omega arith, replicate-IsBytes n)

Ends-of_Ensures {ℓ} : {A : Type ℓ} (P : A → Type 0) (m : Exec A) → Ensures P m → Ends (Unit {0}) P m
Ends-of_Ensures P (done a) h = h
Ends-of_Ensures P fault h = tt
Ends-of_Ensures P stuck h = h

-- what the slave's run keeps of the adapter: its address and window, and that it is well formed
pub record IsServing (self_addr addr size : ℕ) (impl : RtuMemoryImpl) : Type 0 where
  pub self : impl.self_addr ≡ self_addr
  pub begin : impl.memory.addr_begin ≡ addr
  pub length : length impl.memory.bytes ≡ size
  pub memory : IsWellFormed impl.memory

module _ (self_addr addr size : ℕ) where
  own_addr :
      (impl : RtuMemoryImpl) (to fcode : ℕ) (src : List ℕ) (end : ℕ)
      → IsServing self_addr addr size impl
      → IsByte to
      → IsBytes src
      → Ends
          (Unit {0})
          (λ (out : RtuMemoryImpl × List ℕ).
            IsServing self_addr addr size out.0 × IsBytes out.1 × (length out.1 ≤ 254))
          (rtu_memory_pdu_cb impl.memory fcode src 1 end 2 >>= λ out.
            done (record impl { memory = out.0 }, to ∷ out.1))
  own_addr impl to fcode src end v h s =
      Ends-bind (Unit {0}) (Framed impl.memory)
        (λ out. IsServing self_addr addr size out.0 × IsBytes out.1 × (length out.1 ≤ 254))
        (rtu_memory_pdu_cb impl.memory fcode src 1 end 2) _
        (Ends-of_Ensures _ (rtu_memory_pdu_cb impl.memory fcode src 1 end 2)
          (rtu_memory_pdu_cb-Framed impl.memory src 1 end 2 v.memory.contents s fcode))
        λ out f. (
          record {
            self = v.self;
            begin = f.window.0 ∙ v.begin;
            length = f.memory.0 ∙ v.length;
            memory = record {
              ends = omega (arith, f.window.1, v.memory);
              size = omega (arith, f.window, f.memory.0, v.memory);
              contents = f.memory.1;
            };
          },
          (h, f.reply),
          omega (arith, f.size),
        )

  -- On every request the callback ends or faults, keeps the memory's window and form, and answers
  -- with at most 254 bytes, which leaves the slave room for the CRC.
  pub rtu_memory_impl_pdu_cb-Answers :
      Answers (Unit {0}) (IsServing self_addr addr size) rtu_memory_impl_pdu_cb
  unfolding rtu_memory_impl_pdu_cb
  rtu_memory_impl_pdu_cb-Answers impl to fcode src end v h s lo hi =
      ground (arith, own_addr impl to fcode src end v h s.1)

-- an adapter that has been set up, and given its address
abbrev pub configured : ℕ → ℕ → ℕ → RtuMemoryImpl
configured self_addr addr size =
    record (rtu_memory_impl_init addr size (rtu_memory_impl_clear size)) { self_addr = self_addr }

pub configured-IsServing :
    (self_addr addr size : ℕ)
    → addr + size < 2 ^ 16
    → IsServing self_addr addr size (configured self_addr addr size)
unfolding rtu_memory_impl_init rtu_memory_impl_clear
configured-IsServing self_addr addr size h = record {
  self = refl;
  begin = omega arith;
  length = length-replicate {A = ℕ} size 0;
  memory = record {
    ends = omega arith;
    size = omega (arith, length-replicate {A = ℕ} size 0);
    contents = replicate-IsBytes size;
  };
}

-- A slave with the memory adapter, whose window ends below 65536, from its start on and in any
-- order of received bytes, broken bytes, expiries, ends of transmission and rounds of the loop: the
-- run does not get stuck. If it does not fault, then the slave's invariant holds, and the memory
-- keeps its address, window, size and well-formedness. If it faults, then some of the events,
-- without a fault, bring it to a state before a round of the loop in which it holds a frame of four
-- bytes at least and the adapter's callback faults on this frame.
pub run-IsServing :
    (has_suspend has_resume : Bool) (self_addr addr size : ℕ) (es : List Event)
    → addr + size < 2 ^ 16
    → AreEvents es
    → Ends
        (FaultsAt rtu_memory_impl_pdu_cb
          (modbus_rtu_init has_suspend has_resume (configured self_addr addr size))
          es)
        (Good (Unit {0}) (IsServing self_addr addr size) rtu_memory_impl_pdu_cb)
        (run rtu_memory_impl_pdu_cb
          (modbus_rtu_init has_suspend has_resume (configured self_addr addr size))
          es)
unfolding modbus_rtu_init
run-IsServing has_suspend has_resume self_addr addr size es h k =
    run-FaultsAt (IsServing self_addr addr size) rtu_memory_impl_pdu_cb
      (rtu_memory_impl_pdu_cb-Answers self_addr addr size)
      (modbus_rtu_init has_suspend has_resume (configured self_addr addr size)) es k
      (
        init-Inv has_suspend has_resume (configured self_addr addr size),
        configured-IsServing self_addr addr size h,
      )
