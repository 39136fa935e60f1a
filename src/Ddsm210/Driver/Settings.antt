-- ===== src/Ddsm210/Driver/Settings.antt =====
-- What `SetMode` and `SetMotorId` report.
use robosw.Base.{ℕ, zero, suc, ◌≡◌, refl, Bool, true, false, List, [], ◌∷◌, arith, ◌∙◌, ◌≢◌}
use robosw.Ddsm210.Frame.{Mode}
use robosw.Ddsm210.Driver.{
  Ddsm210, send, decode_one, drain, process_feedback, request_mode_feedback, await_mode, set_mode,
  send_id, await_ack, set_motor_id,
}

module _ (memory : List ℕ) (fuel : ℕ) where
  -- Whether the mode is one that `SetMode` accepts.
  abbrev pub is_settable : Mode → Bool
  is_settable Mode.open_loop = true
  is_settable Mode.speed = true
  is_settable Mode.position = true
  is_settable Mode.unknown = false

  await_mode-true :
      (arrivals : List (List ℕ)) (mode : Mode) (m : Ddsm210)
      → (await_mode memory fuel arrivals mode m).0 ≡ true
  unfolding await_mode
  await_mode-true [] mode m = refl
  await_mode-true (bytes ∷ arrivals) mode m = ground (
    arith,
    await_mode-true arrivals mode
        (process_feedback memory fuel bytes (request_mode_feedback memory m)),
  )

  -- Whatever the motor answers, `SetMode` reports success for each mode but the unknown one.
  pub set_mode-is_settable :
      (arrivals : List (List ℕ)) (m : Ddsm210) (mode : Mode)
      → (set_mode memory fuel arrivals m mode).0 ≡ is_settable mode
  unfolding set_mode
  set_mode-is_settable arrivals m Mode.open_loop = await_mode-true arrivals _ _
  set_mode-is_settable arrivals m Mode.speed = await_mode-true arrivals _ _
  set_mode-is_settable arrivals m Mode.position = await_mode-true arrivals _ _
  set_mode-is_settable arrivals m Mode.unknown = refl

  await_ack_sound :
      (arrivals : List (List ℕ)) (m : Ddsm210)
      → (await_ack memory fuel arrivals m).0 ≡ true
      → (await_ack memory fuel arrivals m).1.id_set_ack_received ≡ true
  unfolding await_ack
  await_ack_sound [] m h = ground arith
  await_ack_sound (bytes ∷ arrivals) m h =
      ground (arith, await_ack_sound arrivals (process_feedback memory fuel bytes m))

  decode_one-motor_id : (m : Ddsm210) → (decode_one memory m).motor_id ≡ m.motor_id
  unfolding decode_one
  decode_one-motor_id m = ground arith

  drain-motor_id : (n : ℕ) (m : Ddsm210) → (drain memory n m).motor_id ≡ m.motor_id
  unfolding drain
  drain-motor_id zero m = refl
  drain-motor_id (suc n) m =
      ground (arith, drain-motor_id n (decode_one memory m), decode_one-motor_id m)

  process_feedback-motor_id :
      (bytes : List ℕ) (m : Ddsm210) → (process_feedback memory fuel bytes m).motor_id ≡ m.motor_id
  unfolding process_feedback
  process_feedback-motor_id bytes m = drain-motor_id fuel _

  send_id-motor_id :
      (arrivals : List (List ℕ)) (id : ℕ) (m : Ddsm210)
      → (send_id memory fuel arrivals id m).motor_id ≡ m.motor_id
  unfolding send_id send
  send_id-motor_id [] id m = refl
  send_id-motor_id (bytes ∷ arrivals) id m =
      send_id-motor_id arrivals id _ ∙ process_feedback-motor_id bytes _

  await_ack-motor_id :
      (arrivals : List (List ℕ)) (m : Ddsm210)
      → (await_ack memory fuel arrivals m).1.motor_id ≡ m.motor_id
  unfolding await_ack
  await_ack-motor_id [] m = refl
  await_ack-motor_id (bytes ∷ arrivals) m = ground (
    arith,
    await_ack-motor_id arrivals (process_feedback memory fuel bytes m),
    process_feedback-motor_id bytes m,
  )

  -- When `SetMotorId` reports success, the id is not the one for broadcast, the driver has taken it,
  -- and an acknowledgement has arrived.
  pub set_motor_id_sound :
      (first second : List (List ℕ)) (m : Ddsm210) (id : ℕ)
      → (set_motor_id memory fuel first second m id).0 ≡ true
      → let m' = (set_motor_id memory fuel first second m id).1 in
        (id ≢ 0xaa) × (m'.motor_id ≡ id) × (m'.id_set_ack_received ≡ true)
  unfolding set_motor_id
  set_motor_id_sound first second m id h =
      let m' = record m { id_set_ack_received = false; motor_id = id } in
      let m'' = send_id memory fuel first id m' in
      ground (
        arith,
        await_ack_sound second m'',
        await_ack-motor_id second m'',
        send_id-motor_id first id m',
      )
