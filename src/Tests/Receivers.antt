-- ===== src/Tests/Receivers.antt =====
-- A receiver with two channels, whose values are integers.
use robosw.Base.{true, false, some, [], ◌∷◌, ◌≡◌, refl}
use robosw.Base.Int.{ℤ, pos, ◌-ℤ◌}
use robosw.Tests.Planners.{exact_reals}
use robosw.Event.Queue.{push}
use robosw.Swervebot.Receiver.{
  JsAxis, RcMessage, RcChannelMap, Mapping, Receiver, scale_channel_value, changed, scaled,
  level_pos, push_lever, on_mode, push_axis, on_axis, on_channels, on_sbus_msg_received,
}
use robosw.Swervebot.Receiver.Repeat.{after, on_sbus_msg_received-again}

abbrev negate : ℤ → ℤ
negate z = pos 0 -ℤ z

abbrev first : RcChannelMap ℤ
first = record { channel = 0; min = pos 0; neutral = pos 10; max = pos 12; invert = false }

abbrev second : RcChannelMap ℤ
second = record { channel = 1; min = pos 0; neutral = pos 10; max = pos 12; invert = false }

abbrev mapping : Mapping ℤ
mapping = record { mode = first; linear_x = second; linear_y = first; angular_z = second }

abbrev message : ℤ → ℤ → RcMessage ℤ
message a b = record { channels = a ∷ b ∷ []; frame_loss = false; fault_protection = false }

abbrev started : Receiver ℤ
started = record { rc_lever_queue = []; js_axis_queue = []; prev_msg = message (pos 0) (pos 0) }

on_sbus_msg_received-again_example :
    let msg = message (pos 12) (pos 0) in
    let s =
      after exact_reals
        (pos 0)
        (pos 0)
        negate
        mapping
        msg
        started
        ((pos 0, refl), (pos 0, refl), (pos 0, refl), (pos 0, refl))
        ((pos 12, refl, refl), (pos 0, refl, refl), (pos 12, refl, refl), (pos 0, refl, refl)) in
    (on_sbus_msg_received exact_reals (pos 0) (pos 0) negate true mapping msg started ≡ some s)
    × (on_sbus_msg_received exact_reals (pos 0) (pos 0) negate true mapping msg s ≡ some s)
on_sbus_msg_received-again_example =
    on_sbus_msg_received-again exact_reals (pos 0) (pos 0) negate true mapping
      (message (pos 12) (pos 0)) started
      ((pos 0, refl), (pos 0, refl), (pos 0, refl), (pos 0, refl))
      ((pos 12, refl, refl), (pos 0, refl, refl), (pos 12, refl, refl), (pos 0, refl, refl))

-- Only the first channel has changed: one event for the mode, one for the y axis.
lever_up :
    on_sbus_msg_received exact_reals
      (pos 0)
      (pos 0)
      negate
      true
      mapping
      (message (pos 12) (pos 0))
      started
    ≡ some (record {
      rc_lever_queue = record { channel = 0; value = pos 1 } ∷ [];
      js_axis_queue = record { axis = JsAxis.y; value = pos 1 } ∷ [];
      prev_msg = message (pos 12) (pos 0);
    })
unfolding on_sbus_msg_received on_channels on_mode on_axis push_lever push_axis changed scaled
    level_pos scale_channel_value push
lever_up = refl
