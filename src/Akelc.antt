-- ===== src/Akelc.antt =====
-- src/driver/motor_akelc/src/motor_akelc_modbus.cpp: `MotorAkelcModbus`. The Modbus port is a
-- parameter: a read gives the registers, or nothing on an error, a write tells whether it succeeded,
-- and both change the bus. `buffer_` only passes values between a method and the port.
pub mod Registers
use robosw.Base.{
  ℕ, ◌+◌, Bool, true, false, Option, none, some, List, [], ◌∷◌, if◌then◌else◌, get_or, shr, shl,
  bit_and, bit_or, ◌==◌, not,
}
use robosw.Base.Int.{ℤ, pos, negsuc, word16, word32, signed16, signed32, ltb_ℤ}
use robosw.Base.Float.{FloatOps}

-- `ModbusRtuInterface`: on the bus, a device and a register, what a call gives and the bus after it.
pub record Port (Bus : Type 0) : Type 0 where
  pub read_holding_registers : Bus → ℕ → ℕ → ℕ → Option (List ℕ) × Bus
  pub write_single_register : Bus → ℕ → ℕ → ℕ → Bool × Bus
  pub write_multiple_registers : Bus → ℕ → ℕ → List ℕ → Bool × Bus

-- `port` is absent for the null pointer.
pub record MotorAkelcModbus (Bus : Type 0) : Type 0 where
  pub port : Option (Port Bus)
  pub device_id : ℕ

-- The limits of `SetTargetRpm`, those of an `int16_t` but for the lowest.
unfoldable pub limit_rpm : ℤ → ℤ
limit_rpm rpm =
    let low = if ltb_ℤ rpm (negsuc 32766) then negsuc 32766 else rpm in
    if ltb_ℤ (pos 32767) low then pos 32767 else low

-- The two registers of a gain, whose integer part is `k`.
unfoldable pub gain : ℤ → List ℕ
gain k = shr (bit_and (word32 k) 0xff00) 16 ∷ bit_and (word32 k) 0x00ff ∷ []

module _ {Bus : Type 0} where
  -- A method that writes one register.
  unfoldable pub write_register : MotorAkelcModbus Bus → ℕ → ℕ → Bus → Bool × Bus
  write_register m register value bus = elim m.port [
    | none ↦ (false, bus)
    | some p ↦ p.write_single_register bus m.device_id register value
  ]

  -- A method that reads registers and makes a value of them, with its values for no port and for an
  -- error.
  unfoldable pub read_registers {ℓ} :
      {A : Type ℓ} → MotorAkelcModbus Bus → ℕ → ℕ → A → A → (List ℕ → A) → Bus → A × Bus
  read_registers m register count no_port failed make bus = elim m.port [
    | none ↦ (no_port, bus)
    | some p ↦
        let (registers, bus') = p.read_holding_registers bus m.device_id register count in
        elim registers [ none ↦ (failed, bus') | some values ↦ (make values, bus') ]
  ]

  unfoldable pub is_reachable : MotorAkelcModbus Bus → Bus → Bool × Bus
  is_reachable m = read_registers m 0x0000 1 false false (λ _. true)

  unfoldable pub set_target_switching_freq : MotorAkelcModbus Bus → ℤ → Bus → Bool × Bus
  set_target_switching_freq m freq = write_register m 0x0040 (word16 freq)

  unfoldable pub get_actual_switching_freq : MotorAkelcModbus Bus → Bus → ℤ × Bus
  get_actual_switching_freq m =
      read_registers m 0x0012 1 (negsuc 0) (negsuc 0) (λ b. signed16 (get_or b 0 0))

  unfoldable pub set_target_rpm : MotorAkelcModbus Bus → ℤ → Bus → Bool × Bus
  set_target_rpm m rpm = write_register m 0x0040 (word16 (limit_rpm rpm))

  unfoldable pub get_actual_rpm : MotorAkelcModbus Bus → Bus → ℤ × Bus
  get_actual_rpm m =
      read_registers m 0x001e 2 (pos 0) (pos 0)
        (λ b. signed32 (bit_or (shl (get_or b 0 0) 16) (get_or b 1 0)))

  unfoldable pub apply_brake :
      (ops : FloatOps) → MotorAkelcModbus Bus → ops.Float → Bus → Bool × Bus
  apply_brake ops m percentage =
      let low = if ops.lt percentage (ops.of_int (pos 0)) then ops.of_int (pos 0) else percentage in
      let high = if ops.lt (ops.of_int (pos 100)) low then ops.of_int (pos 100) else low in
      write_register m 0x0042 (word16 (ops.trunc (ops.mul high (ops.of_int (pos 10)))))

  unfoldable pub release_brake : MotorAkelcModbus Bus → Bus → Bool × Bus
  release_brake m = write_register m 0x0044 1

  unfoldable pub is_motor_blocked : MotorAkelcModbus Bus → Bus → Bool × Bus
  is_motor_blocked m = read_registers m 0x0013 1 false false (λ b. not (get_or b 0 0 == 0))

  -- The number of the enumerator: `kNoError` without a port, `kUnknown` on an error.
  unfoldable pub get_error_code : MotorAkelcModbus Bus → Bus → ℕ × Bus
  get_error_code m = read_registers m 0x0017 1 0 20 (λ b. get_or b 0 0)

  -- The three writes of gains, whose failures are only logged.
  unfoldable pub write_gains : MotorAkelcModbus Bus → ℕ → ℤ → ℤ → ℤ → Bus → Bool × Bus
  write_gains m register kp ki kd bus = elim m.port [
    | none ↦ (false, bus)
    | some p ↦
        let bus1 = (p.write_multiple_registers bus m.device_id register (gain kp)).1 in
        let bus2 = (p.write_multiple_registers bus1 m.device_id (register + 2) (gain ki)).1 in
        (true, (p.write_multiple_registers bus2 m.device_id (register + 4) (gain kd)).1)
  ]

  -- `ConfigurePid...`, given the gains without their fractions.
  unfoldable pub configure_pid_with_internal_feedback :
      MotorAkelcModbus Bus → ℤ → ℤ → ℤ → Bus → Bool × Bus
  configure_pid_with_internal_feedback m = write_gains m 0x0090

  unfoldable pub configure_pid_with_external_feedback :
      MotorAkelcModbus Bus → ℤ → ℤ → ℤ → Bus → Bool × Bus
  configure_pid_with_external_feedback m = write_gains m 0x0098
