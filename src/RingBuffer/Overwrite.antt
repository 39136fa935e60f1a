-- ===== src/RingBuffer/Overwrite.antt =====
-- Overwriting when the read index stands at the end of the memory: `Write` reduces the read index
-- and not the write index, so that the two no longer count the stored elements.
use native.Mathlib.Nat.{mod-le, mod-eq-sub-mod, mod-eq_of_lt, div-add-mod', add-mul-mod_self_right}
use robosw.Base.{
  ℕ, zero, suc, ◌+◌, ◌-◌, ◌*◌, ◌/◌, ◌%◌, ◌^◌, ◌≤◌, ◌<◌, ◌≡◌, refl, ap, ap₂, ◌∙◌, true, arith,
  length, ◌==◌, Bool-cases, inl, inr,
}
use robosw.RingBuffer.{
  RingBuffer, size_t, sub_size, write, store, push_read, read, read_from, get_occupied_size,
}
use robosw.RingBuffer.Inv.{IsValid, count, masked, narrowed, size_pos, is_full-count}
use robosw.RingBuffer.Refine.{write_over}

-- The distance of the indices after it, where the read index was `i - 1`.
whole_turns : (s i : ℕ) → 0 < s → (i + s - 1 - i % s) % s ≡ s - 1
whole_turns s i h =
    ap (λ t. t % s) split ∙ (add-mul-mod_self_right (s - 1) (i / s) s ∙ mod-eq_of_lt below)
  where
    split : i + s - 1 - i % s ≡ s - 1 + i / s * s
    split = omega (arith, div-add-mod' i s)

    below : s - 1 < s
    below = omega arith

fallen_back : (s i : ℕ) → 0 < s → s ≤ i → i % s + s ≤ i
fallen_back s i h le = omega (arith, mod-eq-sub-mod le, mod-le (i - s) s)

module _ {ℓ} {T : Type ℓ} where
  -- `Read` looks at the bare indices, and stops only where they are the same.
  read_from-count :
      (todo : ℕ) (r : RingBuffer T) (d : T)
      → r.read_index + todo ≤ r.write_index
      → r.write_index < 2 ^ 64
      → length (read_from r todo d).0 ≡ todo
  unfolding read_from read
  read_from-count zero r d h w = refl
  read_from-count (suc todo) r d h w = elim (Bool-cases (r.read_index == r.write_index)) [
    | inl e ↦ absurd (ground arith)
    | inr e ↦
        rw (e, read)
          (ap suc (
            read_from-count todo (record r { read_index = size_t (r.read_index + 1) }) d
              (omega arith) w))
  ]

module _ {ℓ} {T : Type ℓ} {bits : ℕ} {r : RingBuffer T} (v : IsValid bits r) where
  -- A `Write` that overwrites with the read index at the last place of the memory, the indices not
  -- yet wrapped: the buffer reports N - 1 elements, and a `Read` hands out any number up to 2N - 1.
  pub overwrite_reads_past :
      (x d : T) (todo : ℕ)
      → r.enable_overwrite ≡ true
      → count r + 1 ≡ r.size
      → r.size ≤ r.read_index + 1
      → r.read_index ≤ r.write_index
      → r.write_index + 1 < 2 ^ 64
      → todo + 1 ≤ 2 * r.size
      → let (n, r') = write r x in
        (get_occupied_size r' ≡ r.size - 1) × (length (read_from r' todo d).0 ≡ todo)
  unfolding store push_read get_occupied_size
  overwrite_reads_past x d todo on full end no_wrap room h =
      rw (write_over r x (ground (arith, is_full-count v)) on)
        (occupied, read_from-count todo (store (push_read r) x) d reach in_range)
    where
      back : ℕ
      back = (r.read_index + 1) % r.size

      read_eq : (store (push_read r) x).read_index ≡ back
      read_eq = masked v _ ∙ narrowed v (r.read_index + 1)

      write_step : (store (push_read r) x).write_index ≡ r.write_index + 1
      write_step = omega arith

      behind : back + r.size ≤ r.read_index + 1
      behind = fallen_back r.size (r.read_index + 1) (size_pos v) end

      distance : sub_size (r.write_index + 1) back ≡ r.read_index + 1 + r.size - 1 - back
      distance = omega (arith, behind, v.write_in, v.read_in)

      occupied : get_occupied_size (store (push_read r) x) ≡ r.size - 1
      occupied =
          masked v _
          ∙ (ap₂ (λ a b. sub_size a b % r.size) write_step read_eq
              ∙ (ap (λ t. t % r.size) distance
                  ∙ whole_turns r.size (r.read_index + 1) (size_pos v)))

      reach : (store (push_read r) x).read_index + todo ≤ (store (push_read r) x).write_index
      reach = rw (read_eq, write_step) (omega (arith, behind))

      in_range : (store (push_read r) x).write_index < 2 ^ 64
      in_range = rw write_step room
