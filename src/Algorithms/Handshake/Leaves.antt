-- ===== src/Algorithms/Handshake/Leaves.antt =====
-- Postconditions on the channel.
use mysql_asio.Base.{◌≡◌, refl, subst, Bool, true, false, Option, none, some, if◌then◌else◌}
use mysql_asio.Base.Error.{ErrorCode, ErrorInfo}
use mysql_asio.Algorithms.{◌>>=◌}
use mysql_asio.Algorithms.Handshake.{Handshaken, done}

-- What holds of the channel that is left, if one is.
module _ {C : Type 0} (P : C → Type 0) where
  abbrev pub Leaves : Option (Handshaken C) → Type 0
  Leaves o = (r : Handshaken C) → o ≡ some r → P r.channel

  pub Leaves-done : (code : ErrorCode) (info : ErrorInfo) (c : C) → P c → Leaves (done code info c)
  Leaves-done code info c h r e =
      subst (λ (o : Option (Handshaken C)). elim o [ none ↦ Unit | some s ↦ P s.channel ]) e h

  pub Leaves-if :
      (b : Bool) (x y : Option (Handshaken C))
      → (b ≡ true → Leaves x)
      → (b ≡ false → Leaves y)
      → Leaves (if b then x else y)
  Leaves-if true x y hx hy = hx refl
  Leaves-if false x y hx hy = hy refl

  pub Leaves-bind :
      {A : Type 0} (m : Option A) (next : A → Option (Handshaken C))
      → ((a : A) → m ≡ some a → Leaves (next a))
      → Leaves (m >>= next)
  Leaves-bind none next h r e = cc
  Leaves-bind (some a) next h r e = h a refl r e
