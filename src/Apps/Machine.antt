-- ===== src/Apps/Machine.antt =====
-- What a command-line program does besides computing: it writes files and prints, and an exception
-- leaves what was written before it.
use dariyanaap.Prelude.{
  ◌≡◌, ap, [], ◌++◌, Option, none, some, Bool, true, false, if◌then◌else◌, arith,
}
use dariyanaap.Prelude.Text.{Bytes, codes, bytes_eq}
use dariyanaap.Core.Errors.{io_error, Result, ok, err}

-- The texts of the files that can be read, by their paths, which paths cannot be opened for
-- writing, and what stands on stdout and on stderr.
pub record Machine : Type 0 where
  pub files : Bytes → Option Bytes
  pub refused : Bytes → Bool
  pub out : Bytes
  pub diagnostics : Bytes

abbrev pub App {ℓ} : Type ℓ → Type ℓ
App A = Machine → Result A × Machine

abbrev pub carry_on {ℓ κ} :
    {A : Type ℓ} {B : Type κ} → Result A × Machine → (A → App B) → Result B × Machine
carry_on (err e, m) next = (err e, m)
carry_on (ok a, m) next = next a m

pub carry_on-ok {ℓ κ} :
    {A : Type ℓ} {B : Type κ} (a : A) (r : Result A × Machine) (next : A → App B)
    → r.0 ≡ ok a
    → carry_on r next ≡ next a r.1
carry_on-ok a (ok b, m) next h = ap (λ c. next c m) (ground arith)
carry_on-ok a (err e, m) next h = absurd (cc)

infixl 5 ◌>>=◌ ◌>>◌
abbrev pub ◌>>=◌ {ℓ κ} : {A : Type ℓ} {B : Type κ} → App A → (A → App B) → App B
◌>>=◌ action next m = carry_on (action m) next

abbrev pub ◌>>◌ {ℓ} : {B : Type ℓ} → App (Unit {0}) → App B → App B
action >> next = action >>= λ _. next

abbrev pub pure {ℓ} : {A : Type ℓ} → A → App A
pure a m = (ok a, m)

-- A computation that may throw and does nothing else.
abbrev pub lift {ℓ} : {A : Type ℓ} → Result A → App A
lift result m = (result, m)

abbrev pub print : Bytes → App (Unit {0})
print text m = (ok tt, record m { out = m.out ++ text })

abbrev pub complain : Bytes → App (Unit {0})
complain text m = (ok tt, record m { diagnostics = m.diagnostics ++ text })

abbrev pub old_text : Option Bytes → Bytes
old_text none = []
old_text (some text) = text

abbrev pub written : (Bytes → Option Bytes) → Bytes → Bytes → Bytes → Option Bytes
written files path text other = if bytes_eq path other then some text else files other

abbrev pub is_there : Option Bytes → Bool
is_there none = false
is_there (some text) = true

-- `ifstream(path).good()`
abbrev pub exists : Bytes → Machine → Bool
exists path m = is_there (m.files path)

-- Opening a file to append to it or to write it anew, writing, and closing it; or the exception
-- where it cannot be opened.
unfoldable pub append_file : Bytes → Bytes → App (Unit {0})
append_file path text m =
    if m.refused path
    then (err (io_error (codes "cannot write " ++ path)), m)
    else (ok tt, record m { files = written m.files path (old_text (m.files path) ++ text) })

unfoldable pub write_file : Bytes → Bytes → App (Unit {0})
write_file path text m =
    if m.refused path
    then (err (io_error (codes "cannot write " ++ path)), m)
    else (ok tt, record m { files = written m.files path text })
