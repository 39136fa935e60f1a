-- ===== src/Vesc/Command/Limits.antt =====
-- The limits on what a command packet carries.
use robosw.Base.{
  ℕ, ◌-◌, ◌*◌, ◌/◌, ◌%◌, ◌^◌, ◌<◌, ◌≤◌, ◌≡◌, ◌⊎◌, inl, inr, Bool-cases, refl, sym, subst, ap, ap₂,
  ◌∙◌, true, false, List, arith, bit_and, shr, bit_and-mask,
}
use robosw.Base.Int.{ℤ, pos, negsuc, word16, signed16, signed16-word16, ◌≤ℤ◌, ltb_ℤ}
use robosw.Base.Bytes.{word_of2, word_of2-sum, byte_of}
use robosw.Base.Float.{FloatOps}
use robosw.Vesc.Command.{
  clamp_command, vesc_set_servo_pos_cmd_packet, vesc_set_duty_cycle_cmd_packet,
  vesc_set_current_cmd_packet, vesc_set_current_brake_cmd_packet, vesc_set_rpm_cmd_packet,
  vesc_set_position_cmd_packet,
}
use robosw.Vesc.Command.Encode.{Command, build, word_at0, word_at3, word_at0-word_frame}

module _ (ops : FloatOps) (memory : List ℕ) where
  open ops use {Float, lt, of_int, mul, trunc}

  -- A float that is no NaN, with which every comparison is false, is below 1 or above 0.
  abbrev pub IsNumber : Float → Type 0
  IsNumber x = (lt x (of_int (pos 1)) ≡ true) ⊎ (lt (of_int (pos 0)) x ≡ true)

  -- Comparison is right on small integers; the product of a number with a small integer stays between the
  -- exact products of the bounds, which are floats themselves.
  pub record ScaleLaws : Type 0 where
    pub limits :
        (a b : ℕ)
        → a ≤ 2 ^ 24
        → b ≤ 2 ^ 24
        → lt (of_int (pos a)) (of_int (pos b)) ≡ ltb_ℤ (pos a) (pos b)
    pub scaled :
        (x : Float) (top k : ℕ)
        → top ≤ 2 ^ 24
        → k ≤ 2 ^ 24
        → top * k ≤ 2 ^ 24
        → IsNumber x
        → lt (of_int (pos top)) x ≡ false
        → lt x (of_int (pos 0)) ≡ false
        → (pos 0 ≤ℤ trunc (mul x (of_int (pos k))))
          × (trunc (mul x (of_int (pos k))) ≤ℤ pos (top * k))

  clamp-limits :
      ScaleLaws
      → (x : Float) (top : ℕ) → top ≤ 2 ^ 24
      → (lt (of_int (pos top)) (clamp_command ops memory x (of_int (pos 0)) (of_int (pos top)))
          ≡ false)
        × (lt (clamp_command ops memory x (of_int (pos 0)) (of_int (pos top))) (of_int (pos 0))
            ≡ false)
  unfolding clamp_command
  clamp-limits laws x top h =
      ground (arith, laws.limits top top, laws.limits top 0, laws.limits 0 0, laws.limits 0 top)

  limited-IsNumber :
      (x y : Float) (top : ℕ)
      → ScaleLaws
      → IsNumber x
      → 0 < top
      → top ≤ 2 ^ 24
      → (y ≡ x) ⊎ (y ≡ of_int (pos top)) ⊎ (y ≡ of_int (pos 0))
      → IsNumber y
  limited-IsNumber x y top laws n p h (inl e) = subst IsNumber (sym e) n
  limited-IsNumber x y top laws n p h (inr (inl e)) =
      subst IsNumber (sym e) (inr (laws.limits 0 top (omega arith) h ∙ ground arith))
  limited-IsNumber x y top laws n p h (inr (inr e)) =
      subst IsNumber (sym e) (inl (laws.limits 0 1 (omega arith) (omega arith)))

  clamp-which :
      (x low high : Float)
      → (clamp_command ops memory x low high ≡ x)
        ⊎ (clamp_command ops memory x low high ≡ high)
        ⊎ (clamp_command ops memory x low high ≡ low)
  unfolding clamp_command
  clamp-which x low high = elim (Bool-cases (lt high x)) [
    | inl e ↦ elim (Bool-cases (lt high low)) [
      | inl f ↦ inr (inr (rw (e, f) refl))
      | inr f ↦ inr (inl (rw (e, f) refl))
    ]
    | inr e ↦ elim (Bool-cases (lt x low)) [
      | inl f ↦ inr (inr (rw (e, f) refl))
      | inr f ↦ inl (rw (e, f) refl)
    ]
  ]

  -- The number that a limited command stands for.
  abbrev pub scale : Float → ℕ → ℕ → ℤ
  scale x top k =
      trunc (mul (clamp_command ops memory x (of_int (pos 0)) (of_int (pos top))) (of_int (pos k)))

  in_range :
      ScaleLaws
      → (x : Float) (top k : ℕ) → IsNumber x
      → 0 < top
      → top ≤ 2 ^ 24
      → k ≤ 2 ^ 24
      → top * k ≤ 2 ^ 24
      → (pos 0 ≤ℤ scale x top k) × (scale x top k ≤ℤ pos (top * k))
  in_range laws x top k n p t u h =
      let limits = clamp-limits laws x top t in
      let y = clamp_command ops memory x (of_int (pos 0)) (of_int (pos top)) in
      let number =
        limited-IsNumber x y top laws n p t (clamp-which x (of_int (pos 0)) (of_int (pos top))) in
      laws.scaled y top k t u h number limits.0 limits.1

  -- The most that each command can ask for, in the unit of its frame.
  abbrev pub most : Command Float → ℕ
  most (Command.duty_cycle x) = 100000
  most (Command.current x) = 20000
  most (Command.brake x) = 20000
  most (Command.position x) = 100000
  most (Command.servo x) = 1000
  most (Command.speed n) = 2 ^ 31 - 1

  -- What the frame of a command says that it asks for.
  abbrev pub asked : ℕ → Command Float → ℤ
  asked id (Command.servo x) = word_at3 (build ops memory id (Command.servo x))
  asked id c = word_at0 (build ops memory id c)

  -- What a command should ask for.
  abbrev pub meant : Command Float → ℤ
  meant (Command.duty_cycle x) = scale x 1 100000
  meant (Command.current x) = scale x 20 1000
  meant (Command.brake x) = scale x 20 1000
  meant (Command.position x) = scale x 1 100000
  meant (Command.servo x) = scale x 1 1000
  meant (Command.speed n) = n

  word16-lt : (v : ℤ) → word16 v < 2 ^ 16
  word16-lt (pos n) = omega arith
  word16-lt (negsuc n) = omega arith

  servo_word :
      (v : ℤ) → word_of2 (shr (bit_and (word16 v) 0xff00) 8) (bit_and (word16 v) 0x00ff) ≡ word16 v
  servo_word v =
      ap₂ word_of2 (byte_of 8 (word16 v)) (bit_and-mask 8 (word16 v))
      ∙ (word_of2-sum (word16 v / 256 % 256) (word16 v % 256) (omega arith)
          ∙ omega (arith, word16-lt v))

  -- A speed fits the `int32_t` that it is given as; the float of another command is no NaN.
  abbrev pub Fits : Command Float → Type 0
  Fits (Command.speed n) = (negsuc (2 ^ 31 - 1) ≤ℤ n) × (n ≤ℤ pos (2 ^ 31 - 1))
  Fits (Command.duty_cycle x) = IsNumber x
  Fits (Command.current x) = IsNumber x
  Fits (Command.brake x) = IsNumber x
  Fits (Command.position x) = IsNumber x
  Fits (Command.servo x) = IsNumber x

  -- Under these laws the frame of every command but a NaN carries the number meant, whatever was asked for: limited and scaled,
  -- without a wrap.
  pub asked-meant : ScaleLaws → (id : ℕ) (c : Command Float) → Fits c → asked id c ≡ meant c
  unfolding vesc_set_duty_cycle_cmd_packet vesc_set_current_cmd_packet
      vesc_set_current_brake_cmd_packet vesc_set_position_cmd_packet vesc_set_servo_pos_cmd_packet
      vesc_set_rpm_cmd_packet
  asked-meant laws id (Command.duty_cycle x) f =
      let r = in_range laws x 1 100000 f (omega arith) (omega arith) (omega arith) (omega arith) in
      word_at0-word_frame memory _ id _ (omega (arith, r)) (omega (arith, r))
  asked-meant laws id (Command.current x) f =
      let r = in_range laws x 20 1000 f (omega arith) (omega arith) (omega arith) (omega arith) in
      word_at0-word_frame memory _ id _ (omega (arith, r)) (omega (arith, r))
  asked-meant laws id (Command.brake x) f =
      let r = in_range laws x 20 1000 f (omega arith) (omega arith) (omega arith) (omega arith) in
      word_at0-word_frame memory _ id _ (omega (arith, r)) (omega (arith, r))
  asked-meant laws id (Command.position x) f =
      let r = in_range laws x 1 100000 f (omega arith) (omega arith) (omega arith) (omega arith) in
      word_at0-word_frame memory _ id _ (omega (arith, r)) (omega (arith, r))
  asked-meant laws id (Command.servo x) f =
      let r = in_range laws x 1 1000 f (omega arith) (omega arith) (omega arith) (omega arith) in
      ap signed16 (servo_word (scale x 1 1000))
      ∙ signed16-word16 (scale x 1 1000) (omega (arith, r)) (omega (arith, r))
  asked-meant laws id (Command.speed n) f = word_at0-word_frame memory _ id n f.0 f.1

  -- The least that each command can ask for.
  abbrev pub least : Command Float → ℤ
  least (Command.speed n) = negsuc (2 ^ 31 - 1)
  least c = pos 0

  meant-range :
      ScaleLaws → (c : Command Float) → Fits c → (least c ≤ℤ meant c) × (meant c ≤ℤ pos (most c))
  meant-range laws (Command.duty_cycle x) f =
      in_range laws x 1 100000 f (omega arith) (omega arith) (omega arith) (omega arith)
  meant-range laws (Command.current x) f =
      in_range laws x 20 1000 f (omega arith) (omega arith) (omega arith) (omega arith)
  meant-range laws (Command.brake x) f =
      in_range laws x 20 1000 f (omega arith) (omega arith) (omega arith) (omega arith)
  meant-range laws (Command.position x) f =
      in_range laws x 1 100000 f (omega arith) (omega arith) (omega arith) (omega arith)
  meant-range laws (Command.servo x) f =
      in_range laws x 1 1000 f (omega arith) (omega arith) (omega arith) (omega arith)
  meant-range laws (Command.speed n) f = f

  -- Under these laws, whatever float but a NaN a command is given, its frame asks for at least 0 and at most the
  -- command's limit; a speed is any `int32_t`.
  pub asked-range :
      ScaleLaws
      → (id : ℕ) (c : Command Float) → Fits c
      → (least c ≤ℤ asked id c) × (asked id c ≤ℤ pos (most c))
  asked-range laws id c f = rw (asked-meant laws id c f) (meant-range laws c f)
