-- ===== src/Channel.antt =====
-- The sending half of tokio::sync::broadcast: `send` fails exactly when no receiver is left.
-- Receivers leave at times that the sender does not choose, so a sender carries an oracle that says
-- whether anyone is there when its n-th message goes out.
use net_device_mapping.Prelude.{ℕ, Bool, true, false, List, [], ◌∷◌, ◌++◌, length}

pub record Sender {ℓ} (A : Type ℓ) : Type ℓ where
  pub sent : List A
  pub listening : ℕ → Bool

-- The sender afterwards, and whether the message was taken (`is_ok`).
abbrev pub send_if {ℓ} : {A : Type ℓ} → Bool → A → Sender A → Sender A × Bool
send_if true a s = (record s { sent = s.sent ++ a ∷ [] }, true)
send_if false a s = (s, false)

unfoldable pub send {ℓ} : {A : Type ℓ} → A → Sender A → Sender A × Bool
send a s = send_if (s.listening (length s.sent)) a s
