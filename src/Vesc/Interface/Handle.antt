-- ===== src/Vesc/Interface/Handle.antt =====
-- What a received frame changes.
use robosw.Base.{
  ℕ, suc, ◌+◌, ◌++◌, length, length-append, ◌/◌, ◌%◌, ◌^◌, ◌<◌, ◌≡◌, ap, arith, List, [], ◌∷◌,
  Option, none, some, ◌==◌, if◌then◌else◌, bit_and-mask, shl-bit_or, refl, ◌∙◌, sym, Bool-cases,
  inl, inr, false,
}
use robosw.Base.Float.{FloatOps, DoubleOps}
use robosw.Vesc.Frame.{CanFrame}
use robosw.Vesc.Interface.{
  VescCanInterface, StampedVescState, VescStateUpdatedField, on_status1, on_status2, on_status3,
  on_status4, on_status5, update, handle_can_frame, VescState,
}

-- The kind of status that the part of an id above the controller's names.
abbrev pub status_kind : ℕ → Option VescStateUpdatedField
status_kind n =
    if n == 9
    then some VescStateUpdatedField.status1
    else if n == 14
    then some VescStateUpdatedField.status2
    else if n == 15
    then some VescStateUpdatedField.status3
    else if n == 16
    then some VescStateUpdatedField.status4
    else if n == 27
    then some VescStateUpdatedField.status5
    else none

module _ (ops : FloatOps) (doubles : DoubleOps ops) where
  open doubles use {Double}

  abbrev pub apply_status :
      Option VescStateUpdatedField → CanFrame → StampedVescState Double → StampedVescState Double
  apply_status none frame s = s
  apply_status (some VescStateUpdatedField.status1) frame s = on_status1 ops doubles frame s
  apply_status (some VescStateUpdatedField.status2) frame s = on_status2 ops doubles frame s
  apply_status (some VescStateUpdatedField.status3) frame s = on_status3 ops doubles frame s
  apply_status (some VescStateUpdatedField.status4) frame s = on_status4 ops doubles frame s
  apply_status (some VescStateUpdatedField.status5) frame s = on_status5 ops doubles frame s

  -- A frame changes the state by the kind of status in bits 8 to 28 of its id, and only when the low
  -- byte of the id is this controller's number.
  pub update_refines :
      (id : ℕ) (frame : CanFrame) (s : StampedVescState Double)
      → id < 256
      → update ops doubles id frame s ≡ (
          if frame.can_id % 256 == id
          then apply_status (status_kind (frame.can_id % 2 ^ 29 / 256)) frame s
          else s)
  unfolding update
  update_refines id frame s h = ground (
    arith,
    bit_and-mask 29 frame.can_id,
    shl-bit_or 8 9 id h,
    shl-bit_or 8 14 id h,
    shl-bit_or 8 15 id h,
    shl-bit_or 8 16 id h,
    shl-bit_or 8 27 id h,
  )

  -- Frames with the times at which they arrive.
  abbrev pub handle_frames : List (ℕ × CanFrame) → VescCanInterface Double → VescCanInterface Double
  handle_frames [] m = m
  handle_frames (e ∷ es) m = handle_frames es (handle_can_frame ops doubles e.0 m e.1)

  -- Those that carry the number of this controller.
  abbrev pub own_frames : ℕ → List (ℕ × CanFrame) → List (ℕ × CanFrame)
  own_frames id [] = []
  own_frames id (e ∷ es) =
      let own = own_frames id es in if e.1.can_id % 256 == id then e ∷ own else own

  -- The state without its time.
  abbrev pub known : StampedVescState Double → VescStateUpdatedField × VescState Double
  known s = (s.field, s.state)

  apply_status-known :
      (k : Option VescStateUpdatedField) (frame : CanFrame) (s t : StampedVescState Double)
      → known s ≡ known t
      → known (apply_status k frame s) ≡ known (apply_status k frame t)
  apply_status-known none frame s t h = h
  apply_status-known (some VescStateUpdatedField.status1) frame s t h =
      ap (λ k. known (on_status1 ops doubles frame (record { time = 0; field = k.0; state = k.1 })))
        h
  apply_status-known (some VescStateUpdatedField.status2) frame s t h =
      ap (λ k. known (on_status2 ops doubles frame (record { time = 0; field = k.0; state = k.1 })))
        h
  apply_status-known (some VescStateUpdatedField.status3) frame s t h =
      ap (λ k. known (on_status3 ops doubles frame (record { time = 0; field = k.0; state = k.1 })))
        h
  apply_status-known (some VescStateUpdatedField.status4) frame s t h =
      ap (λ k. known (on_status4 ops doubles frame (record { time = 0; field = k.0; state = k.1 })))
        h
  apply_status-known (some VescStateUpdatedField.status5) frame s t h =
      ap (λ k. known (on_status5 ops doubles frame (record { time = 0; field = k.0; state = k.1 })))
        h

  update-known :
      (id : ℕ) (frame : CanFrame) (s t : StampedVescState Double)
      → id < 256
      → known s ≡ known t
      → known (update ops doubles id frame s) ≡ known (update ops doubles id frame t)
  update-known id frame s t b h =
      rw (update_refines id frame s b, update_refines id frame t b)
        (elim (Bool-cases (frame.can_id % 256 == id)) [
          | inl e ↦
              rw e (apply_status-known (status_kind (frame.can_id % 2 ^ 29 / 256)) frame s t h)
          | inr e ↦ rw e h
        ])

  handle-known :
      (now : ℕ) (frame : CanFrame) (m : VescCanInterface Double)
      → known (handle_can_frame ops doubles now m frame).stamped_state
        ≡ known (update ops doubles m.vesc_id frame (record m.stamped_state { time = now }))
  unfolding handle_can_frame
  handle-known now frame m = refl

  handle-vesc_id :
      (now : ℕ) (frame : CanFrame) (m : VescCanInterface Double)
      → (handle_can_frame ops doubles now m frame).vesc_id ≡ m.vesc_id
  unfolding handle_can_frame
  handle-vesc_id now frame m = refl

  foreign :
      (now : ℕ) (frame : CanFrame) (m : VescCanInterface Double)
      → m.vesc_id < 256
      → (frame.can_id % 256 == m.vesc_id) ≡ false
      → known (handle_can_frame ops doubles now m frame).stamped_state ≡ known m.stamped_state
  foreign now frame m b h =
      handle-known now frame m
      ∙ (ap known (update_refines m.vesc_id frame (record m.stamped_state { time = now }) b)
          ∙ rw h refl)

  handle_frames-like :
      (es : List (ℕ × CanFrame)) (m n : VescCanInterface Double)
      → m.vesc_id < 256
      → m.vesc_id ≡ n.vesc_id
      → known m.stamped_state ≡ known n.stamped_state
      → known (handle_frames es m).stamped_state
        ≡ known (handle_frames (own_frames m.vesc_id es) n).stamped_state
  unfolding handle_can_frame
  handle_frames-like [] m n b i h = h
  handle_frames-like (e ∷ es) m n b i h =
      let m' = handle_can_frame ops doubles e.0 m e.1 in
      let n' = handle_can_frame ops doubles e.0 n e.1 in
      elim (Bool-cases (e.1.can_id % 256 == m.vesc_id)) [
        | inl own ↦ rw own (handle_frames-like es m' n' b i (both e.0 e.1))
        | inr other ↦ rw other (handle_frames-like es m' n b i (foreign e.0 e.1 m b other ∙ h))
      ]
    where
      both :
          (now : ℕ) (f : CanFrame)
          → known (handle_can_frame ops doubles now m f).stamped_state
            ≡ known (handle_can_frame ops doubles now n f).stamped_state
      both now f =
          handle-known now f m
          ∙ (update-known m.vesc_id f _ (record n.stamped_state { time = now }) b h
              ∙ (ap (λ k. known (update ops doubles k f (record n.stamped_state { time = now }))) i
                  ∙ sym (handle-known now f n)))

  -- The time of the last frame, whose ever it is.
  abbrev pub last_time : ℕ → List (ℕ × CanFrame) → ℕ
  last_time t [] = t
  last_time t (e ∷ es) = last_time e.0 es

  -- How often the callback was called, if there is one, and n calls more.
  abbrev pub calls : Option (List (StampedVescState Double)) → Option ℕ
  calls none = none
  calls (some states) = some (length states)

  abbrev pub more : ℕ → Option ℕ → Option ℕ
  more n none = none
  more n (some k) = some (k + n)

  update-time :
      (id : ℕ) (frame : CanFrame) (s : StampedVescState Double)
      → (update ops doubles id frame s).time ≡ s.time
  unfolding update
  update-time id frame s = ground arith

  handle-time :
      (now : ℕ) (frame : CanFrame) (m : VescCanInterface Double)
      → (handle_can_frame ops doubles now m frame).stamped_state.time ≡ now
  unfolding handle_can_frame
  handle-time now frame m = update-time m.vesc_id frame (record m.stamped_state { time = now })

  calls-added :
      (o : Option (List (StampedVescState Double))) (s : StampedVescState Double)
      → calls (elim o [ none ↦ none | some states ↦ some (states ++ s ∷ []) ]) ≡ more 1 (calls o)
  calls-added none s = refl
  calls-added (some states) s = ap some (length-append states (s ∷ []))

  handle-calls :
      (now : ℕ) (frame : CanFrame) (m : VescCanInterface Double)
      → calls (handle_can_frame ops doubles now m frame).notified ≡ more 1 (calls m.notified)
  unfolding handle_can_frame
  handle-calls now frame m = calls-added m.notified _

  more-more : (n : ℕ) (o : Option ℕ) → more n (more 1 o) ≡ more (suc n) o
  more-more n none = refl
  more-more n (some k) = ap some (omega arith)

  handle_frames-time :
      (es : List (ℕ × CanFrame)) (m : VescCanInterface Double)
      → (handle_frames es m).stamped_state.time ≡ last_time m.stamped_state.time es
  handle_frames-time [] m = refl
  handle_frames-time (e ∷ es) m =
      handle_frames-time es (handle_can_frame ops doubles e.0 m e.1)
      ∙ ap (λ t. last_time t es) (handle-time e.0 e.1 m)

  handle_frames-calls :
      (es : List (ℕ × CanFrame)) (m : VescCanInterface Double)
      → calls (handle_frames es m).notified ≡ more (length es) (calls m.notified)
  handle_frames-calls [] m = more_none (calls m.notified)
    where
      more_none : (o : Option ℕ) → o ≡ more 0 o
      more_none none = refl
      more_none (some k) = ap some (omega arith)
  handle_frames-calls (e ∷ es) m =
      handle_frames-calls es (handle_can_frame ops doubles e.0 m e.1)
      ∙ ap (more (length es)) (handle-calls e.0 e.1 m)
      ∙ more-more (length es) (calls m.notified)

  -- On a bus with several controllers, the values and the field of the state after any traffic are those that
  -- the frames with its own controller's number give, of which there are 256; its time is that of the last
  -- frame, whose ever it is, and the callback has been called once for each frame.
  pub handle_frames-own :
      (es : List (ℕ × CanFrame)) (m : VescCanInterface Double)
      → m.vesc_id < 256
      → (known (handle_frames es m).stamped_state
          ≡ known (handle_frames (own_frames m.vesc_id es) m).stamped_state)
        × ((handle_frames es m).stamped_state.time ≡ last_time m.stamped_state.time es)
        × (calls (handle_frames es m).notified ≡ more (length es) (calls m.notified))
  handle_frames-own es m b =
      (handle_frames-like es m m b refl refl, handle_frames-time es m, handle_frames-calls es m)
