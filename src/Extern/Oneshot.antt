-- ===== src/Extern/Oneshot.antt =====
-- `tokio::sync::oneshot`: a channel for one value. `view` reads how far it has come.
use waltz.Base.{◌≡◌, refl, Option, none, some, Result, ok, err}

pub data View (R : Type 0) : Type 0 where
  waiting : View R
  sent : R → View R
  -- The sender was dropped without a value.
  abandoned : View R
  -- The receiver was dropped.
  forsaken : View R

pub data RecvError : Type 0 where
  recv_error : RecvError

-- What `Sender::send` returns and leaves.
abbrev pub view_send : {R : Type 0} → R → View R → Result (Unit {0}) R × View R
view_send r waiting = (ok tt, sent r)
view_send r (sent r') = (err r, sent r')
view_send r abandoned = (err r, abandoned)
view_send r forsaken = (err r, forsaken)

-- One poll of the receiver: `none` while the value may still come.
abbrev pub view_poll : {R : Type 0} → View R → Option (Result R RecvError)
view_poll waiting = none
view_poll (sent r) = some (ok r)
view_poll abandoned = some (err recv_error)
view_poll forsaken = none

abbrev pub view_drop_sender : {R : Type 0} → View R → View R
view_drop_sender waiting = abandoned
view_drop_sender (sent r) = sent r
view_drop_sender abandoned = abandoned
view_drop_sender forsaken = forsaken

abbrev pub view_drop_receiver : {R : Type 0} → View R → View R
view_drop_receiver _ = forsaken

pub record Oneshot (R : Type 0) : Type 1 where
  pub Channel : Type 0
  pub view : Channel → View R
  pub channel : Channel
  pub send : R → Channel → Result (Unit {0}) R × Channel
  pub poll : Channel → Option (Result R RecvError)
  pub drop_sender : Channel → Channel
  pub drop_receiver : Channel → Channel
  pub view-channel : view channel ≡ waiting
  pub send_result : (r : R) (c : Channel) → (send r c).0 ≡ (view_send r (view c)).0
  pub view-send : (r : R) (c : Channel) → view (send r c).1 ≡ (view_send r (view c)).1
  pub poll_lem : (c : Channel) → poll c ≡ view_poll (view c)
  pub view-drop_sender : (c : Channel) → view (drop_sender c) ≡ view_drop_sender (view c)
  pub view-drop_receiver : (c : Channel) → view (drop_receiver c) ≡ forsaken

-- A channel that meets the interface: its own view.
abbrev pub plain_oneshot : (R : Type 0) → Oneshot R
plain_oneshot R = record {
  Channel = View R;
  view = λ c. c;
  channel = waiting;
  send = view_send;
  poll = view_poll;
  drop_sender = view_drop_sender;
  drop_receiver = view_drop_receiver;
  view-channel = refl;
  send_result = λ r c. refl;
  view-send = λ r c. refl;
  poll_lem = λ c. refl;
  view-drop_sender = λ c. refl;
  view-drop_receiver = λ c. refl;
}
