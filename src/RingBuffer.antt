-- ===== src/RingBuffer.antt =====
-- src/driver/async_port/include/async_port/ring_buffer.hpp: `RingBuffer<T, N>`. The lock of each method
-- but Peek makes it one step. An index is a `std::size_t`, and `& size_mask_` is kept as the bit operation.
pub mod Inv
pub mod Window
pub mod Store
pub mod Refine
pub mod Peek
pub mod Burst
pub mod Run
pub mod Overwrite
use robosw.Base.{
  ℕ, zero, suc, ◌+◌, ◌-◌, ◌%◌, ◌^◌, Bool, List, [], ◌∷◌, ◌&&◌, bit_and, leb, ◌==◌, if◌then◌else◌,
  get_or, set, not,
}

abbrev pub size_t : ℕ → ℕ
size_t n = n % 2 ^ 64

-- `a - b` of two `std::size_t`
abbrev pub sub_size : ℕ → ℕ → ℕ
sub_size a b = size_t (a + 2 ^ 64 - b)

-- The object; `size` is the template argument N.
pub record RingBuffer {ℓ} (T : Type ℓ) : Type ℓ where
  pub size : ℕ
  pub buffer : List T
  pub size_mask : ℕ
  pub write_index : ℕ
  pub read_index : ℕ
  pub enable_overwrite : Bool

-- The static assertion on N: `(N != 0) && ((N & (N - 1)) == 0)`.
unfoldable pub size_check : ℕ → Bool
size_check n = not (n == 0) && bit_and n (n - 1) == 0

module _ {ℓ} {T : Type ℓ} where
  -- The constructor, given the memory that `buffer_` starts with.
  unfoldable pub init : ℕ → List T → Bool → RingBuffer T
  init n memory overwrite = record {
    size = n;
    buffer = memory;
    size_mask = n - 1;
    write_index = 0;
    read_index = 0;
    enable_overwrite = overwrite;
  }

  unfoldable pub reset : RingBuffer T → RingBuffer T
  reset r = record r { write_index = 0; read_index = 0 }

  unfoldable pub is_empty : RingBuffer T → Bool
  is_empty r = r.read_index == r.write_index

  unfoldable pub is_full : RingBuffer T → Bool
  is_full r = bit_and (size_t (r.write_index + 1)) r.size_mask == bit_and r.read_index r.size_mask

  unfoldable pub get_occupied_size : RingBuffer T → ℕ
  get_occupied_size r = bit_and (sub_size r.write_index r.read_index) r.size_mask

  unfoldable pub get_free_size : RingBuffer T → ℕ
  get_free_size r =
      sub_size (sub_size r.size 1) (bit_and (sub_size r.write_index r.read_index) r.size_mask)

  -- `buffer_[i]`; every index is masked, so the default is not read in a buffer of N entries.
  abbrev pub at_index : RingBuffer T → ℕ → T → T
  at_index r i d = get_or r.buffer i d

  -- `std::size_t Read(T& data)`: the count, what `data` holds after it, and the buffer.
  unfoldable pub read : RingBuffer T → T → ℕ × T × RingBuffer T
  read r old = if r.read_index == r.write_index then (0, old, r) else (
    1,
    at_index r (bit_and r.read_index r.size_mask) old,
    record r { read_index = size_t (r.read_index + 1) },
  )

  -- `std::size_t PeekAt(T& data, size_t n) const`. `>=` binds tighter than `&` in C++: the test is
  -- `(n >= write - read) & mask`.
  unfoldable pub peek_at : RingBuffer T → T → ℕ → ℕ × T
  peek_at r old n =
      if not
        (bit_and (if leb (sub_size r.write_index r.read_index) n then 1 else 0) r.size_mask == 0)
      then (0, old)
      else (1, at_index r (bit_and (size_t (r.read_index + n)) r.size_mask) old)

  -- `buffer_[(write_index_++) & size_mask_] = new_data`
  unfoldable pub store : RingBuffer T → T → RingBuffer T
  store r x = record r {
    buffer = set r.buffer (bit_and r.write_index r.size_mask) x;
    write_index = size_t (r.write_index + 1);
  }

  -- `read_index_ = (read_index_ + 1) & size_mask_`
  unfoldable pub push_read : RingBuffer T → RingBuffer T
  push_read r = record r { read_index = bit_and (size_t (r.read_index + 1)) r.size_mask }

  -- `std::size_t Write(const T& new_data)`
  unfoldable pub write : RingBuffer T → T → ℕ × RingBuffer T
  write r x =
      if is_full r
      then (if r.enable_overwrite then (1, store (push_read r) x) else (0, r))
      else (1, store r x)

  -- The loop of `Write(new_data, btw)` on `new_data[i..btw)`; the count is `i` at its end.
  unfoldable pub write_from : RingBuffer T → ℕ → List T → ℕ × RingBuffer T
  write_from r i [] = (i, r)
  write_from r i (x ∷ xs) =
      let (n, r') = write r x in
      let rest = write_from r' (i + 1) xs in if n == 0 then (i, r) else rest

  unfoldable pub write_all : RingBuffer T → List T → ℕ × RingBuffer T
  unfolding write_from
  write_all r xs = write_from r 0 xs

  -- The loop of `Read(data, btr)`, with `todo` rounds left: what goes into `data[i..)`.
  unfoldable pub read_from : RingBuffer T → ℕ → T → List T × RingBuffer T
  read_from r zero d = ([], r)
  read_from r (suc todo) d =
      let (n, x, r') = read r d in
      let (xs, r'') = read_from r' todo d in if n == 0 then ([], r) else (x ∷ xs, r'')

  -- The loop of `Peek(data, btp)` from index `i`. Only its calls of PeekAt lock: `r i` is the buffer that
  -- the i-th call finds.
  unfoldable pub peek_from : (ℕ → RingBuffer T) → ℕ → ℕ → T → List T
  peek_from r i zero d = []
  peek_from r i (suc todo) d =
      let (n, x) = peek_at (r i) d i in
      let xs = peek_from r (i + 1) todo d in if n == 0 then [] else x ∷ xs
