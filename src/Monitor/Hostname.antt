-- ===== src/Monitor/Hostname.antt =====
-- `class Hostname` of src/unixstd.h: the name of the system, which is read once.
use aprs_wx.Prelude.{
  ◌∙◌, Bool, Bool-cases, Bytes, List, Option, [], ap, equal, if◌then◌else◌, inl, inr, is_zero, none,
  not, pos, refl, some, true, ℤ, ◌&&◌, ◌∷◌, ◌≡◌,
}

-- What `gethostname` does: it writes a name with its null byte, or it fails with `errno`.
pub data NameAnswer : Type 0 where
  named : Bytes → NameAnswer
  not_named : ℤ → NameAnswer

-- The members; the view is the text up to the null byte of the buffer.
pub record Hostname : Type 0 where
  pub err : ℤ
  pub view : Bytes

-- The constructor.
unfoldable pub new_hostname : NameAnswer → Hostname
new_hostname (named word) = record { err = pos 0; view = word }
new_hostname (not_named e) = record { err = e; view = [] }

-- `getHostname`: the static object is made by the first call, with what `gethostname` then does.
unfoldable pub get_hostname : NameAnswer → Option Hostname → Hostname
unfolding new_hostname
get_hostname answer none = new_hostname answer
get_hostname answer (some instance_) = instance_

-- `operator bool`.
unfoldable pub is_valid : Hostname → Bool
is_valid h = not (equal h.view []) && is_zero h.err

-- `name` and `getError`, on the object if there is one; they leave the object behind.
unfoldable pub current_name : NameAnswer → Option Hostname → Bytes × Hostname
unfolding get_hostname
current_name answer object = let h = get_hostname answer object in (h.view, h)

unfoldable pub get_error : NameAnswer → Option Hostname → ℤ × Hostname
unfolding get_hostname
get_error answer object = let h = get_hostname answer object in (h.err, h)

-- `Hostname::name().empty() || Hostname::getError()` in `main` of src/sys_monitor.cpp, and the object
-- behind it; `first` and `second` are what `gethostname` would do at the two calls.
unfoldable pub is_unknown : NameAnswer → NameAnswer → Option Hostname → Bool × Hostname
unfolding current_name get_error
is_unknown first second object =
    let (word, h) = current_name first object in
    let (e, h') = get_error second (some h) in
    if equal word [] then (true, h) else (not (is_zero e), h')

-- The texts that `name` returns in a row of calls.
abbrev pub names : List NameAnswer → Option Hostname → List Bytes
names [] object = []
names (answer ∷ answers) object =
    let (word, h) = current_name answer object in word ∷ names answers (some h)

abbrev pub repeated : Bytes → List NameAnswer → List Bytes
repeated word [] = []
repeated word (answer ∷ answers) = word ∷ repeated word answers

names_held :
    (h : Hostname) (answers : List NameAnswer) → names answers (some h) ≡ repeated h.view answers
unfolding current_name get_hostname
names_held h [] = refl
names_held h (answer ∷ answers) = ap (◌∷◌ h.view) (names_held h answers)

-- The name that an answer gives.
abbrev pub answered : NameAnswer → Bytes
answered (named word) = word
answered (not_named e) = []

pub view-new_hostname : (answer : NameAnswer) → (new_hostname answer).view ≡ answered answer
unfolding new_hostname
view-new_hostname (named word) = refl
view-new_hostname (not_named e) = refl

-- On an object that there is, whatever its members, the test of `main` is the opposite of `operator bool`.
pub is_unknown-is_valid :
    (first second : NameAnswer) (h : Hostname)
    → is_unknown first second (some h) ≡ (not (is_valid h), h)
unfolding is_unknown is_valid get_hostname
is_unknown-is_valid first second h = elim (Bool-cases (equal h.view [])) [
  | inl nothing ↦ rw nothing refl
  | inr something ↦ rw something refl
]

-- Without an object, the name is unknown exactly if the first answer gives none.
pub is_unknown-answered :
    (first second : NameAnswer)
    → is_unknown first second none ≡ (equal (answered first) [], new_hostname first)
unfolding is_unknown get_hostname new_hostname
is_unknown-answered (named word) second = elim (Bool-cases (equal word [])) [
  | inl nothing ↦ rw nothing refl
  | inr something ↦ rw something refl
]
is_unknown-answered (not_named e) second = refl

pub names-answered :
    (first second : NameAnswer) (answers : List NameAnswer)
    → names answers (some (is_unknown first second none).1) ≡ repeated (answered first) answers
names-answered first second answers = rw (is_unknown-answered first second) (
    names_held (new_hostname first) answers
    ∙ ap (λ word. repeated word answers) (view-new_hostname first))
