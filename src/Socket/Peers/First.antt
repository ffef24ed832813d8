-- ===== src/Socket/Peers/First.antt =====
-- `findPeerInfo` of src/basic_socket.h against a search through one list.
use aprs_wx.Prelude.{
  Bool-cases, List, [], ap, arith, false, if◌then◌else◌, inl, inr, ok, refl, some, suc, sym, true,
  zero, ℕ, ℤ, ◌++◌, ◌+◌, ◌∙◌, ◌∷◌, ◌≡◌,
}
use aprs_wx.Socket.Peers.{
  Peer, Search, System, fail, find_peer_info, is_held, new_search, succeed, suits, try_peers,
  try_preferences,
}
use mathlib.Core.List.{append-nil}

-- The addresses in the order in which they are tried.
abbrev pub suitable : ℕ → List Peer → List Peer
suitable pref [] = []
suitable pref (p ∷ ps) = if suits pref p then p ∷ suitable pref ps else suitable pref ps

abbrev pub candidates : List ℕ → List Peer → List Peer
candidates [] peers = []
candidates (pref ∷ prefs) peers = suitable pref peers ++ candidates prefs peers

-- The first address that accepts ends the search.
abbrev pub first_of : System → List Peer → Search → Search
first_of sys [] s = s
first_of sys (p ∷ ps) s =
    if sys.accepts s.attempts then succeed sys p s else first_of sys ps (fail sys s)

-- The descriptors that `socket` has returned in the first `n` attempts.
abbrev pub returned : System → ℕ → List ℤ
returned sys zero = []
returned sys (suc n) = returned sys n ++ sys.socket n ∷ []

abbrev pub held : ℤ → List ℤ
held fd = if is_held fd then fd ∷ [] else []

-- Each descriptor has been closed, except the one that is held.
abbrev pub Accounts : System → Search → Type 0
Accounts sys s = returned sys s.attempts ≡ s.closed ++ held s.sock_fd

try_peers-first_of :
    (sys : System) (pref : ℕ) (ps : List Peer) (s : Search)
    → try_peers sys pref ps s ≡ first_of sys (suitable pref ps) s
unfolding try_peers
try_peers-first_of sys pref [] s = refl
try_peers-first_of sys pref (p ∷ ps) s = elim (Bool-cases (suits pref p)) [
  | inr other ↦ rw other (try_peers-first_of sys pref ps s)
  | inl same ↦ rw same (elim (Bool-cases (sys.accepts s.attempts)) [
    | inl accepted ↦ rw accepted
    | inr failed ↦ rw failed (try_peers-first_of sys pref ps (fail sys s))
  ])
]

first_of-append :
    (sys : System) (xs ys : List Peer) (s : Search)
    → ((n : ℕ) → sys.accepts n ≡ true → is_held (sys.socket n) ≡ true)
    → is_held s.sock_fd ≡ false
    → first_of sys (xs ++ ys) s
      ≡ (let s' = first_of sys xs s in if is_held s'.sock_fd then s' else first_of sys ys s')
first_of-append sys [] ys s h e = rw e
first_of-append sys (x ∷ xs) ys s h e = elim (Bool-cases (sys.accepts s.attempts)) [
  | inl accepted ↦ rw accepted (rw (h s.attempts accepted))
  | inr failed ↦ rw failed (first_of-append sys xs ys (fail sys s) h refl)
]

try_preferences-first_of :
    (sys : System) (prefs : List ℕ) (peers : List Peer) (s : Search)
    → ((n : ℕ) → sys.accepts n ≡ true → is_held (sys.socket n) ≡ true)
    → is_held s.sock_fd ≡ false
    → try_preferences sys prefs peers s ≡ first_of sys (candidates prefs peers) s
unfolding try_preferences
try_preferences-first_of sys [] peers s h e = refl
try_preferences-first_of sys (pref ∷ prefs) peers s h e =
    let s' = first_of sys (suitable pref peers) s in
    rw (first_of-append sys (suitable pref peers) (candidates prefs peers) s h e) (
      rw (try_peers-first_of sys pref peers s) (elim (Bool-cases (is_held s'.sock_fd)) [
        | inl found ↦ rw found
        | inr none_yet ↦ rw none_yet (try_preferences-first_of sys prefs peers s' h none_yet)
      ]))

-- One more attempt, where no descriptor is held.
returned_next :
    (sys : System) (s : Search)
    → is_held s.sock_fd ≡ false
    → Accounts sys s
    → returned sys (s.attempts + 1) ≡ s.closed ++ sys.socket s.attempts ∷ []
returned_next sys s e a =
    let next : s.attempts + 1 ≡ suc s.attempts = omega arith in
    let all_closed : returned sys s.attempts ≡ s.closed =
      a ∙ ap (λ b. s.closed ++ (if b then s.sock_fd ∷ [] else [])) e ∙ append-nil s.closed in
    ap (returned sys) next ∙ ap (λ l. l ++ sys.socket s.attempts ∷ []) all_closed

first_of-Accounts :
    (sys : System) (ps : List Peer) (s : Search)
    → ((n : ℕ) → sys.accepts n ≡ true → is_held (sys.socket n) ≡ true)
    → is_held s.sock_fd ≡ false
    → Accounts sys s
    → Accounts sys (first_of sys ps s)
first_of-Accounts sys [] s h e a = a
first_of-Accounts sys (p ∷ ps) s h e a = elim (Bool-cases (sys.accepts s.attempts)) [
  | inl accepted ↦ rw accepted (rw (h s.attempts accepted) (returned_next sys s e a))
  | inr failed ↦ rw failed (
      first_of-Accounts sys ps (fail sys s) h refl
        (returned_next sys s e a ∙ sym (append-nil (s.closed ++ sys.socket s.attempts ∷ []))))
]

-- If `bind_connect` accepts no negative descriptor, `findPeerInfo` on a resolved name tries the
-- addresses that suit the first preference, then those that suit the second, and so on, and ends with
-- the first that accepts; and it has closed each descriptor that `socket` returned, except the one that
-- it holds.
pub find_peer_info-first_of :
    (sys : System) (prefs : List ℕ) (peers : List Peer)
    → ((n : ℕ) → sys.accepts n ≡ true → is_held (sys.socket n) ≡ true)
    → (find_peer_info sys prefs (some peers)
        ≡ ok (first_of sys (candidates prefs peers) new_search))
      × Accounts sys (first_of sys (candidates prefs peers) new_search)
unfolding find_peer_info
find_peer_info-first_of sys prefs peers h = (
  ap ok (try_preferences-first_of sys prefs peers new_search h refl),
  first_of-Accounts sys (candidates prefs peers) new_search h refl refl,
)
