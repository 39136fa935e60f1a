-- ===== src/RingBuffer/Run.antt =====
-- Whole histories of a ring buffer that does not overwrite.
use native.Mathlib.Nat.{one-le-pow, mod_self}
use robosw.Base.{
  ℕ, ◌^◌, ◌<◌, ◌≡◌, refl, ap, ◌∙◌, Bool, true, false, arith, length, List, [], ◌∷◌, bit_and-mask,
}
use robosw.RingBuffer.{RingBuffer, init, read, write, store, push_read, size_check}
use robosw.RingBuffer.Inv.{IsValid}
use robosw.RingBuffer.Window.{contents, pop, push, read_refines, read-IsValid}
use robosw.RingBuffer.Refine.{write_refines}

-- Every power of two passes the static assertion on N.
pub size_check-pow : (bits : ℕ) → size_check (2 ^ bits) ≡ true
unfolding size_check
size_check-pow bits =
    ground (arith, one-le-pow bits 2, bit_and-mask bits (2 ^ bits), mod_self (2 ^ bits))

-- The constructor makes a valid, empty buffer.
pub init-IsValid {ℓ} :
    {T : Type ℓ} (bits : ℕ) (memory : List T) (overwrite : Bool) (d : T)
    → bits < 64
    → length memory ≡ 2 ^ bits
    → IsValid bits (init (2 ^ bits) memory overwrite)
      × (contents d (init (2 ^ bits) memory overwrite) ≡ [])
unfolding init
init-IsValid bits memory overwrite d small room = (
  record {
    small = small;
    size_pow = refl;
    mask = refl;
    memory = room;
    write_in = omega arith;
    read_in = omega arith;
    ahead = one-le-pow bits 2 (omega arith);
  },
  refl,
)

pub data Op {ℓ} (T : Type ℓ) : Type ℓ where
  put : T → Op T
  get : Op T

module _ {ℓ} {T : Type ℓ} where
  -- The counts and values that a client sees; `old` is what its variable holds before a `Read`.
  pub run : RingBuffer T → T → List (Op T) → List (ℕ × T)
  run r old [] = []
  run r old (put x ∷ ops) = let (n, r') = write r x in (n, old) ∷ run r' old ops
  run r old (get ∷ ops) = let (n, x, r') = read r old in (n, x) ∷ run r' x ops

  pub run_queue : ℕ → List T → T → List (Op T) → List (ℕ × T)
  run_queue size q old [] = []
  run_queue size q old (put x ∷ ops) =
      let (n, q') = push size false q x in (n, old) ∷ run_queue size q' old ops
  run_queue size q old (get ∷ ops) = let (n, x, q') = pop q old in (n, x) ∷ run_queue size q' x ops

  write_config :
      (r : RingBuffer T) (x : T)
      → ((write r x).1.size ≡ r.size) × ((write r x).1.enable_overwrite ≡ r.enable_overwrite)
  unfolding write store push_read
  write_config r x = ground arith

  read_config :
      (r : RingBuffer T) (x : T)
      → ((read r x).2.size ≡ r.size) × ((read r x).2.enable_overwrite ≡ r.enable_overwrite)
  unfolding read
  read_config r x = ground arith

  -- No history tells a valid buffer that does not overwrite from the queue of its elements.
  pub run_refines :
      (ops : List (Op T)) (d old : T) (bits : ℕ) (r : RingBuffer T)
      → IsValid bits r
      → r.enable_overwrite ≡ false
      → run r old ops ≡ run_queue r.size (contents d r) old ops
  unfolding run run_queue
  run_refines [] d old bits r v off = refl
  run_refines (put x ∷ ops) d old bits r v off =
      let w = write_refines d v x (λ on. absurd (cc (on, off))) in
      ap (λ l. ((write r x).0, old) ∷ l)
        (run_refines ops d old bits (write r x).1 w.1 ((write_config r x).1 ∙ off)
          ∙ ap (λ s. run_queue s (contents d (write r x).1) old ops) (write_config r x).0)
      ∙ ap (λ p. (p.0, old) ∷ run_queue r.size p.1 old ops)
          (w.0 ∙ ap (λ b. push r.size b (contents d r) x) off)
  run_refines (get ∷ ops) d old bits r v off =
      ap (λ l. ((read r old).0, (read r old).1) ∷ l)
        (run_refines ops d (read r old).1 bits (read r old).2 (read-IsValid d v old)
            ((read_config r old).1 ∙ off)
          ∙ ap (λ s. run_queue s (contents d (read r old).2) (read r old).1 ops)
              (read_config r old).0)
      ∙ ap (λ p. (p.0, p.1) ∷ run_queue r.size p.2 p.1 ops) (read_refines d v old)
