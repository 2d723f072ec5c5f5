-- ===== src/Extern/Watch.antt =====
-- `tokio::sync::watch` as the crate uses it: a value is sent at most once, and no receiver marks it
-- as seen before the last use of the channel, so that all receivers of a channel observe the same.
use waltz.Base.{ℕ, ◌+◌, ◌-◌, ◌<◌, ◌≡◌, refl, Bool, true, false}

pub record Watch : Type 1 where
  -- One channel: its sender and its receivers act on it.
  pub Channel : Type 0
  pub receivers : Channel → ℕ
  -- What `has_changed().unwrap_or(true)` returns, and whether `changed()` is ready: a value was sent
  -- or the sender was dropped.
  pub has_changed : Channel → Bool
  -- `watch::channel(())`, with its first receiver.
  pub channel : Channel
  pub send : Channel → Channel
  pub clone_receiver : Channel → Channel
  pub drop_receiver : Channel → Channel
  pub drop_sender : Channel → Channel
  pub receivers-channel : receivers channel ≡ 1
  pub has_changed-channel : has_changed channel ≡ false
  pub receivers-send : (c : Channel) → receivers (send c) ≡ receivers c
  pub has_changed-send : (c : Channel) → 0 < receivers c → has_changed (send c) ≡ true
  pub receivers-clone : (c : Channel) → receivers (clone_receiver c) ≡ receivers c + 1
  pub has_changed-clone : (c : Channel) → has_changed (clone_receiver c) ≡ has_changed c
  pub receivers-drop : (c : Channel) → receivers (drop_receiver c) ≡ receivers c - 1
  pub has_changed-drop : (c : Channel) → has_changed (drop_receiver c) ≡ has_changed c
  pub receivers-drop_sender : (c : Channel) → receivers (drop_sender c) ≡ receivers c
  pub has_changed-drop_sender : (c : Channel) → has_changed (drop_sender c) ≡ true

pub record PlainChannel : Type 0 where
  pub count : ℕ
  pub changed : Bool

-- A channel that meets the interface.
abbrev pub plain_watch : Watch
plain_watch = record {
  Channel = PlainChannel;
  receivers = λ c. c.count;
  has_changed = λ c. c.changed;
  channel = record { count = 1; changed = false };
  send = λ c. record { count = c.count; changed = true };
  clone_receiver = λ c. record { count = c.count + 1; changed = c.changed };
  drop_receiver = λ c. record { count = c.count - 1; changed = c.changed };
  drop_sender = λ c. record { count = c.count; changed = true };
  receivers-channel = refl;
  has_changed-channel = refl;
  receivers-send = λ c. refl;
  has_changed-send = λ c h. refl;
  receivers-clone = λ c. refl;
  has_changed-clone = λ c. refl;
  receivers-drop = λ c. refl;
  has_changed-drop = λ c. refl;
  receivers-drop_sender = λ c. refl;
  has_changed-drop_sender = λ c. refl;
}
