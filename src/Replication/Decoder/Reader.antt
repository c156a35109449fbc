-- ===== src/Replication/Decoder/Reader.antt =====
-- Readers in sequence: the `?` after each `read_…` of replication/decoder.rs.
use mathlib.Core.Path.{◌≡◌, refl, fun_ext}
use pg_x.Base.{Result, ok, err}
use pg_x.Replication.Decoder.Buf.{Buf, DecodeError, Reader}

unfoldable pub pure {ℓ} : {A : Type ℓ} → A → Reader A
pure a b = ok (a, b)

-- `bail!`
unfoldable pub fail {ℓ} : {A : Type ℓ} → DecodeError → Reader A
fail e b = err e

abbrev pub continue {ℓ κ} :
    {A : Type ℓ} {B : Type κ}
    → Result DecodeError (A × Buf)
    → (A → Reader B)
    → Result DecodeError (B × Buf)
continue (ok (a, b)) f = f a b
continue (err e) f = err e

infixl 5 ◌>>=◌ ◌>>◌
unfoldable pub ◌>>=◌ {ℓ κ} : {A : Type ℓ} {B : Type κ} → Reader A → (A → Reader B) → Reader B
◌>>=◌ m f b = continue (m b) f

abbrev pub ◌>>◌ {ℓ κ} : {A : Type ℓ} {B : Type κ} → Reader A → Reader B → Reader B
m >> k = m >>= λ _. k

pub continue-continue {ℓ κ μ} :
    {A : Type ℓ} {B : Type κ} {C : Type μ} (r : Result DecodeError (A × Buf)) (f : A → Reader B)
    (g : B → Reader C)
    → continue r (λ a. f a >>= g) ≡ continue (continue r f) g
unfolding ◌>>=◌
continue-continue (ok (a, b)) f g = refl
continue-continue (err e) f g = refl

pub >>=_assoc {ℓ κ μ} :
    {A : Type ℓ} {B : Type κ} {C : Type μ} (m : Reader A) (f : A → Reader B) (g : B → Reader C)
    → (m >>= λ a. f a >>= g) ≡ ((m >>= f) >>= g)
unfolding ◌>>=◌
>>=_assoc m f g = fun_ext λ b. continue-continue (m b) f g
