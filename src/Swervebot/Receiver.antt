-- ===== src/Swervebot/Receiver.antt =====
-- src/platform/swervebot/src/sbot_system.cpp: what becomes of a message of the receiver, with the scale of
-- src/interface/include/interface/driver/rc_receiver_interface.hpp. The time stamps are left out; the
-- constants 0.5 and -0.5 and `!=` are parameters beside the operations on numbers.

pub mod Repeat
use robosw.Base.{ℕ, get_elem?, Bool, true, false, Option, none, some, List, if◌then◌else◌}
use robosw.Base.Int.{pos, negsuc}
use robosw.Base.Float.{RealOps}
use robosw.Base.Loops.{and_then}
use robosw.Event.Queue.{push, default_n}

pub data JsAxis : Type 0 where
  x y z rx ry rz throttle rudder wheel gas brake : JsAxis
  hat0x hat0y hat1x hat1y hat2x hat2y hat3x hat3y : JsAxis
  pressure distance tilt_x tilt_y tool_width last : JsAxis

pub record RcMessage (R : Type 0) : Type 0 where
  pub channels : List R
  pub frame_loss : Bool
  pub fault_protection : Bool

pub record RcChannelMap (R : Type 0) : Type 0 where
  pub channel : ℕ
  pub min : R
  pub neutral : R
  pub max : R
  pub invert : Bool

pub record Mapping (R : Type 0) : Type 0 where
  pub mode : RcChannelMap R
  pub linear_x : RcChannelMap R
  pub linear_y : RcChannelMap R
  pub angular_z : RcChannelMap R

pub record LeverEvent (R : Type 0) : Type 0 where
  pub channel : ℕ
  pub value : R

pub record AxisEvent (R : Type 0) : Type 0 where
  pub axis : JsAxis
  pub value : R

-- The two queues of the context and the static `prev_msg`.
pub record Receiver (R : Type 0) : Type 0 where
  pub rc_lever_queue : List (LeverEvent R)
  pub js_axis_queue : List (AxisEvent R)
  pub prev_msg : RcMessage R

module _ (ops : RealOps) (half minus_half : ops.Real) (negate : ops.Real → ops.Real) where
  open ops use {Real, of_int, sub, div, lt, eqb}

  unfoldable pub scale_channel_value : Real → Real → Real → Real → Real
  scale_channel_value value min neutral max =
      if lt value neutral
      then div (sub value neutral) (sub neutral min)
      else div (sub value neutral) (sub max neutral)

  -- The value of a channel that is not the one before, `none` if it is; an index past the channels is
  -- `none` outside.
  unfoldable pub changed :
      RcMessage Real → RcMessage Real → RcChannelMap Real → Option (Option Real)
  changed prev msg chn = and_then (get_elem? prev.channels chn.channel) (λ old.
      and_then (get_elem? msg.channels chn.channel)
        (λ new. some (if eqb old new then none else some new)))

  unfoldable pub scaled : RcChannelMap Real → Real → Real
  scaled chn value =
      let v = scale_channel_value value chn.min chn.neutral chn.max in
      if chn.invert then negate v else v

  unfoldable pub level_pos : RcChannelMap Real → Real → Real
  level_pos chn value =
      let v = scale_channel_value value chn.min chn.neutral chn.max in
      let up = if lt half v then of_int (pos 1) else v in
      let down = if lt up minus_half then of_int (negsuc 0) else up in
      if chn.invert then negate down else down

  unfoldable pub push_lever : RcChannelMap Real → Option Real → Receiver Real → Receiver Real
  push_lever chn none r = r
  push_lever chn (some v) r =
      let event : LeverEvent Real = record { channel = chn.channel; value = level_pos chn v } in
      record r { rc_lever_queue = push default_n r.rc_lever_queue event }

  unfoldable pub on_mode :
      RcChannelMap Real → RcMessage Real → Receiver Real → Option (Receiver Real)
  on_mode chn msg r = and_then (changed r.prev_msg msg chn) (λ c. some (push_lever chn c r))

  unfoldable pub push_axis :
      JsAxis → RcChannelMap Real → Option Real → Receiver Real → Receiver Real
  push_axis axis chn none r = r
  push_axis axis chn (some v) r =
      let event : AxisEvent Real = record { axis = axis; value = scaled chn v } in
      record r { js_axis_queue = push default_n r.js_axis_queue event }

  unfoldable pub on_axis :
      JsAxis → RcChannelMap Real → RcMessage Real → Receiver Real → Option (Receiver Real)
  on_axis axis chn msg r =
      and_then (changed r.prev_msg msg chn) (λ c. some (push_axis axis chn c r))

  -- The four channels, once the frame is known to be whole.
  unfoldable pub on_channels :
      Mapping Real → RcMessage Real → Receiver Real → Option (Receiver Real)
  on_channels m msg r = and_then (on_mode m.mode msg r) (λ a.
      and_then (on_axis JsAxis.x m.linear_x msg a) (λ b.
        and_then (on_axis JsAxis.y m.linear_y msg b) (λ c.
          and_then (on_axis JsAxis.rx m.angular_z msg c)
            (λ d. some (record d { prev_msg = msg })))))

  -- `OnSbusMsgReceived`, with its test for the machine.
  unfoldable pub on_sbus_msg_received :
      Bool → Mapping Real → RcMessage Real → Receiver Real → Option (Receiver Real)
  on_sbus_msg_received has_fsm m msg r =
      if has_fsm then (if msg.frame_loss then some r else on_channels m msg r) else some r
