-- ===== src/Tbot/Wheels.antt =====
-- The numbers of the two wheels, there and back.
use robosw.Base.{
  ℕ, ◌-◌, ◌^◌, ◌≡◌, ap, ◌∙◌, refl, none, some, List, [], ◌∷◌, ◌++◌, length, ◌⊎◌, inl, inr,
  Option-cases,
}
use robosw.Base.Int.{ℤ, pos, negsuc, ◌≤ℤ◌, signed32, signed32-word32}
use robosw.Base.Bytes.{word_of4-bytes}
use robosw.Base.Float.{FloatOps}
use robosw.Vesc.Frame.{CanFrame}
use robosw.Tbot.{
  CanPort, Messenger, to_int32, four_bytes, rpm_frame, send, send_on, send_rpm_command,
  handle_can_frame, wheel_point, tbot_rpm_cmd_can_id, tbot_encoder_raw_can_id,
}

-- A number of the range of an `int32_t`.
abbrev pub IsInt32 : ℤ → Type 0
IsInt32 v = (negsuc (2 ^ 31 - 1) ≤ℤ v) × (v ≤ℤ pos (2 ^ 31 - 1))

pub to_int32-left : (v : ℤ) (rest : List ℕ) → IsInt32 v → to_int32 (four_bytes v rest) 0 ≡ v
unfolding to_int32 four_bytes
to_int32-left v rest h = ap signed32 (word_of4-bytes v) ∙ signed32-word32 v h.0 h.1

pub to_int32-right :
    (v u : ℤ) (rest : List ℕ) → IsInt32 v → to_int32 (four_bytes u (four_bytes v rest)) 4 ≡ v
unfolding to_int32 four_bytes
to_int32-right v u rest h = ap signed32 (word_of4-bytes v) ∙ signed32-word32 v h.0 h.1

module _ (ops : FloatOps) (memory : List ℕ) where
  open ops use {Float, of_int, div}

  -- The number in a buffer for a wheel's number.
  abbrev pub shown : ℤ → Float
  shown v = div (of_int v) (of_int (pos 1))

  -- A frame of the raw encoder with two numbers in range adds their two points to the two raw buffers, and
  -- changes nothing else.
  pub handle_can_frame-raw :
      (t : Float) (m : Messenger Float) (left right : ℤ)
      → IsInt32 left
      → IsInt32 right
      → handle_can_frame ops memory t m (rpm_frame ops memory tbot_encoder_raw_can_id left right)
        ≡ record m {
          rpm_buffers = record m.rpm_buffers {
            raw_left = m.rpm_buffers.raw_left ++ (t, shown left) ∷ [];
            raw_right = m.rpm_buffers.raw_right ++ (t, shown right) ∷ [];
          };
        }
  unfolding handle_can_frame rpm_frame wheel_point
  handle_can_frame-raw t m left right hl hr =
      rw (to_int32-left left (four_bytes right []) hl, to_int32-right right left [] hr) refl

  -- A speed command with two numbers in range, on a port, sends one frame of eight bytes with the command's id, in which
  -- the board reads the two numbers; without a port nothing is sent.
  pub send_rpm_command-read :
      (m : Messenger Float) (left right : ℤ)
      → IsInt32 left
      → IsInt32 right
      → ((m.can ≡ none) × ((send_rpm_command ops memory m left right).can ≡ none))
        ⊎ ((p : CanPort) × (f : CanFrame) × (m.can ≡ some p)
            × ((send_rpm_command ops memory m left right).can
                ≡ some (record p { sent = p.sent ++ f ∷ [] }))
            × (f.can_id ≡ tbot_rpm_cmd_can_id)
            × (f.can_dlc ≡ length f.bytes)
            × (to_int32 f.bytes 0 ≡ left)
            × (to_int32 f.bytes 4 ≡ right))
  unfolding send_rpm_command send send_on rpm_frame four_bytes
  send_rpm_command-read m left right hl hr = elim (Option-cases m.can) [
    | inl e ↦ inl (e, rw e refl)
    | inr c ↦ inr (
      c.0,
      rpm_frame ops memory tbot_rpm_cmd_can_id left right,
      c.1,
      rw c.1 refl,
      refl,
      refl,
      to_int32-left left (four_bytes right []) hl,
      to_int32-right right left [] hr,
    )
  ]
