-- ===== src/Session/Requests.antt =====
-- Functions that send requests through an App of bin/python/app.py, in sequence.
use xbridge_witness.Base.{Result}
use xbridge_witness.Session.App.{App, Outcome, follow}

-- A part of a function over an app, which leaves the app and the world also where it raises.
abbrev pub Requests : Type 0 → Type 0 → Type 0
Requests W A = App → W → Outcome A W

infixl 5 ◌>>=◌ ◌>>◌
unfoldable pub ◌>>=◌ : {W A B : Type 0} → Requests W A → (A → Requests W B) → Requests W B
◌>>=◌ m f app w = follow (m app w) f

unfoldable pub ◌>>◌ : {W B : Type 0} → Requests W (Unit {0}) → Requests W B → Requests W B
unfolding ◌>>=◌
m >> k = m >>= λ _. k

abbrev pub lift : {W A : Type 0} → Result A → Requests W A
lift x app w = (x, app, w)
