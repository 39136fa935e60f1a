-- ===== src/Swervebot/Receiver/Repeat.antt =====
-- A message that is received twice.
use robosw.Base.{
  List, ◌&&◌, not, get_elem?, Bool, true, false, Bool-cases, Option, none, some, ◌≡◌, refl, ap, sym,
  ◌∙◌, inl, inr, if◌then◌else◌,
}
use robosw.Base.Float.{RealOps}
use robosw.Base.Loops.{and_then}
use robosw.Base.Int.{pos, negsuc}
use robosw.Event.Queue.{push, default_n}
use robosw.Swervebot.Receiver.{
  LeverEvent, AxisEvent, scaled, level_pos, scale_channel_value, JsAxis, RcMessage, RcChannelMap,
  Mapping, Receiver, changed, push_lever, push_axis, on_mode, on_axis, on_channels,
  on_sbus_msg_received,
}

module _ (ops : RealOps) (half minus_half : ops.Real) (negate : ops.Real → ops.Real) where
  -- The message has the channel.
  abbrev pub Has : RcMessage ops.Real → RcChannelMap ops.Real → Type 0
  Has msg chn = (v : ops.Real) × (get_elem? msg.channels chn.channel ≡ some v)

  -- The message has the channel, whose value equals itself: it is no NaN.
  abbrev pub HasNumber : RcMessage ops.Real → RcChannelMap ops.Real → Type 0
  HasNumber msg chn =
      (v : ops.Real) × (get_elem? msg.channels chn.channel ≡ some v) × (ops.eqb v v ≡ true)

  -- The message has a number on each of the four channels.
  abbrev pub HasNumbers : RcMessage ops.Real → Mapping ops.Real → Type 0
  HasNumbers msg m =
      HasNumber msg m.mode
      × HasNumber msg m.linear_x
      × HasNumber msg m.linear_y
      × HasNumber msg m.angular_z

  -- The message has the four channels.
  abbrev pub HasAll : RcMessage ops.Real → Mapping ops.Real → Type 0
  HasAll msg m = Has msg m.mode × Has msg m.linear_x × Has msg m.linear_y × Has msg m.angular_z

  -- A value relative to the neutral one, as a part of the way to the end on its side.
  abbrev part_of : RcChannelMap ops.Real → ops.Real → ops.Real
  part_of chn v =
      if ops.lt v chn.neutral
      then ops.div (ops.sub v chn.neutral) (ops.sub chn.neutral chn.min)
      else ops.div (ops.sub v chn.neutral) (ops.sub chn.max chn.neutral)

  abbrev inverted : RcChannelMap ops.Real → ops.Real → ops.Real
  inverted chn v = if chn.invert then negate v else v

  -- Beyond the halves, the whole way.
  abbrev snapped : ops.Real → ops.Real
  snapped v =
      let up = if ops.lt half v then ops.of_int (pos 1) else v in
      if ops.lt up minus_half then ops.of_int (negsuc 0) else up

  abbrev axis_event : JsAxis → RcChannelMap ops.Real → ops.Real → AxisEvent ops.Real
  axis_event axis chn v = record { axis = axis; value = inverted chn (part_of chn v) }

  abbrev lever_event : RcChannelMap ops.Real → ops.Real → LeverEvent ops.Real
  lever_event chn v = record {
    channel = chn.channel;
    value = inverted chn (snapped (part_of chn v));
  }

  -- The queues after a channel went from the value o to v.
  abbrev after_axis :
      JsAxis
      → RcChannelMap ops.Real
      → ops.Real
      → ops.Real
      → List (AxisEvent ops.Real)
      → List (AxisEvent ops.Real)
  after_axis axis chn o v q = if ops.eqb o v then q else push default_n q (axis_event axis chn v)

  abbrev after_lever :
      RcChannelMap ops.Real
      → ops.Real
      → ops.Real
      → List (LeverEvent ops.Real)
      → List (LeverEvent ops.Real)
  after_lever chn o v q = if ops.eqb o v then q else push default_n q (lever_event chn v)

  -- The state after a whole message: events of the mode, x, y and rx in this order, of those that changed.
  abbrev pub after :
      (m : Mapping ops.Real) (msg : RcMessage ops.Real) (r : Receiver ops.Real)
      → HasAll r.prev_msg m
      → HasNumbers msg m
      → Receiver ops.Real
  after m msg r old new = record {
    rc_lever_queue = after_lever m.mode old.0.0 new.0.0 r.rc_lever_queue;
    js_axis_queue = after_axis JsAxis.rx m.angular_z old.3.0 new.3.0 (
        after_axis JsAxis.y m.linear_y old.2.0 new.2.0
          (after_axis JsAxis.x m.linear_x old.1.0 new.1.0 r.js_axis_queue));
    prev_msg = msg;
  }

  changed-same :
      (msg : RcMessage ops.Real) (chn : RcChannelMap ops.Real)
      → HasNumber msg chn
      → changed ops half minus_half negate msg msg chn ≡ some none
  unfolding changed
  changed-same msg chn (v, p, e) = rw (p, e) refl

  on_mode-after :
      (chn : RcChannelMap ops.Real) (msg : RcMessage ops.Real) (r : Receiver ops.Real)
      (old : Has r.prev_msg chn) (new : HasNumber msg chn)
      → on_mode ops half minus_half negate chn msg r
        ≡ some (record r { rc_lever_queue = after_lever chn old.0 new.0 r.rc_lever_queue })
  unfolding on_mode changed push_lever level_pos scale_channel_value
  on_mode-after chn msg r (o, p) (v, q, n) = elim (Bool-cases (ops.eqb o v)) [
    | inl e ↦ rw (p, q, e) refl
    | inr e ↦ rw (p, q, e) refl
  ]

  on_axis-after :
      (axis : JsAxis) (chn : RcChannelMap ops.Real) (msg : RcMessage ops.Real)
      (r : Receiver ops.Real) (old : Has r.prev_msg chn) (new : HasNumber msg chn)
      → on_axis ops half minus_half negate axis chn msg r
        ≡ some (record r { js_axis_queue = after_axis axis chn old.0 new.0 r.js_axis_queue })
  unfolding on_axis changed push_axis scaled scale_channel_value
  on_axis-after axis chn msg r (o, p) (v, q, n) = elim (Bool-cases (ops.eqb o v)) [
    | inl e ↦ rw (p, q, e) refl
    | inr e ↦ rw (p, q, e) refl
  ]

  on_mode-same :
      (chn : RcChannelMap ops.Real) (r : Receiver ops.Real)
      → HasNumber r.prev_msg chn
      → on_mode ops half minus_half negate chn r.prev_msg r ≡ some r
  unfolding on_mode push_lever
  on_mode-same chn r h = rw (changed-same r.prev_msg chn h) refl

  on_axis-same :
      (axis : JsAxis) (chn : RcChannelMap ops.Real) (r : Receiver ops.Real)
      → HasNumber r.prev_msg chn
      → on_axis ops half minus_half negate axis chn r.prev_msg r ≡ some r
  unfolding on_axis push_axis
  on_axis-same axis chn r h = rw (changed-same r.prev_msg chn h) refl

  then_some :
      {o : Option (Receiver ops.Real)} (f : Receiver ops.Real → Option (Receiver ops.Real))
      {a b : Receiver ops.Real}
      → o ≡ some a
      → f a ≡ some b
      → and_then o f ≡ some b
  then_some f p q = ap (λ o. and_then o f) p ∙ q

  on_channels-after :
      (m : Mapping ops.Real) (msg : RcMessage ops.Real) (r : Receiver ops.Real)
      (old : HasAll r.prev_msg m) (new : HasNumbers msg m)
      → on_channels ops half minus_half negate m msg r ≡ some (after m msg r old new)
  unfolding on_channels
  on_channels-after m msg r old new = then_some _ (on_mode-after m.mode msg r old.0 new.0) (
      then_some _ (on_axis-after JsAxis.x m.linear_x msg _ old.1 new.1) (
        then_some _ (on_axis-after JsAxis.y m.linear_y msg _ old.2 new.2)
          (then_some _ (on_axis-after JsAxis.rx m.angular_z msg _ old.3 new.3) refl)))

  on_channels-same :
      (m : Mapping ops.Real) (s : Receiver ops.Real)
      → HasNumbers s.prev_msg m
      → on_channels ops half minus_half negate m s.prev_msg s ≡ some s
  unfolding on_channels
  on_channels-same m s h = then_some _ (on_mode-same m.mode s h.0) (
      then_some _ (on_axis-same JsAxis.x m.linear_x s h.1) (
        then_some _ (on_axis-same JsAxis.y m.linear_y s h.2)
          (then_some _ (on_axis-same JsAxis.rx m.angular_z s h.3) refl)))

  -- A message with a number on each mapped channel, after one with these channels, puts an event of each channel
  -- that changed on its queue, the scaled value of the mode set to an end beyond the halves; a lost frame, or a
  -- message without a machine, is ignored. The same message again changes nothing.
  pub on_sbus_msg_received-again :
      (has_fsm : Bool) (m : Mapping ops.Real) (msg : RcMessage ops.Real) (r : Receiver ops.Real)
      (old : HasAll r.prev_msg m) (new : HasNumbers msg m)
      → let s = if has_fsm && not msg.frame_loss then after m msg r old new else r in
        (on_sbus_msg_received ops half minus_half negate has_fsm m msg r ≡ some s)
        × (on_sbus_msg_received ops half minus_half negate has_fsm m msg s ≡ some s)
  unfolding on_sbus_msg_received
  on_sbus_msg_received-again false m msg r old new = (refl, refl)
  on_sbus_msg_received-again true m msg r old new = elim (Bool-cases msg.frame_loss) [
    | inl lost ↦ (
      ap (λ b. choose b r) lost ∙ ap (λ b. some (ends b)) (sym lost),
      ap (λ b. choose b (ends b)) lost ∙ ap (λ b. some (ends b)) (sym lost),
    )
    | inr whole ↦ (
      ap (λ b. choose b r) whole
          ∙ on_channels-after m msg r old new
          ∙ ap (λ b. some (ends b)) (sym whole),
      ap (λ b. choose b (ends b)) whole
          ∙ on_channels-same m (after m msg r old new) new
          ∙ ap (λ b. some (ends b)) (sym whole),
    )
  ]
    where
      choose : Bool → Receiver ops.Real → Option (Receiver ops.Real)
      choose b q = if b then some q else on_channels ops half minus_half negate m msg q

      ends : Bool → Receiver ops.Real
      ends b = if not b then after m msg r old new else r
