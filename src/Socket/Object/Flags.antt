-- ===== src/Socket/Object/Flags.antt =====
-- `socketFlags`, `closeOnExec` and `listen` of src/basic_socket.h.
use aprs_wx.Prelude.{
  Bool, Bool-cases, Option, false, if◌then◌else◌, inl, inr, ltb, negsuc, none, not, pos, refl, some,
  true, ℕ, ℤ, ◌&&◌, ◌==◌, ◌||◌, ◌≡◌, ◌⊎◌,
}
use aprs_wx.Socket.Object.{Socket, found, sock_listen}
use aprs_wx.Socket.Peers.{Search, is_held}

-- A word of flags by its bits: `flags b` tells whether bit `b` is set.
abbrev pub Flags : Type 0
Flags = ℕ → Bool

-- `fcntl` on a descriptor: the word that it returns, or -1, and whether it takes a new word.
pub record Fcntl : Type 0 where
  pub get : ℤ → Option Flags
  pub takes : ℤ → Flags → Bool

-- `set ? oflags | flags : oflags & (~flags)`.
abbrev pub changed : Bool → Flags → Flags → Flags
changed true flags old b = old b || flags b
changed false flags old b = old b && not (flags b)

-- The result, and the word that has been written.
pub record Changed : Type 0 where
  pub result : ℤ
  pub written : Option Flags

abbrev pub unchanged_flags : Changed
unchanged_flags = record { result = negsuc 0; written = none }

-- Behind the first call of `fcntl`.
abbrev pub on_flags : Fcntl → Bool → Flags → ℤ → Option Flags → Changed
on_flags sys set flags fd none = unchanged_flags
on_flags sys set flags fd (some old) =
    let word = changed set flags old in
    if sys.takes fd word then record { result = pos 0; written = some word } else unchanged_flags

-- `socketFlags`; `sys` is `fcntl` with `F_GETFL` and `F_SETFL`.
unfoldable pub socket_flags : Fcntl → Bool → Flags → ℤ → Changed
socket_flags sys set flags fd =
    let change = on_flags sys set flags fd (sys.get fd) in
    if is_held fd then change else unchanged_flags

-- `FD_CLOEXEC`, and `O_NONBLOCK`.
abbrev pub fd_cloexec : Flags
fd_cloexec b = b == 0

abbrev pub o_nonblock : Flags
o_nonblock b = b == 11

-- `closeOnExec`; `sys` is `fcntl` with `F_GETFD` and `F_SETFD`.
unfoldable pub close_on_exec : Fcntl → Bool → ℤ → Changed
close_on_exec sys set fd =
    let change = on_flags sys set fd_cloexec fd (sys.get fd) in
    if is_held fd then change else unchanged_flags

-- `std::min`.
abbrev pub is_less : ℤ → ℤ → Bool
is_less (pos m) (pos n) = ltb m n
is_less (pos m) (negsuc n) = false
is_less (negsuc m) (pos n) = true
is_less (negsuc m) (negsuc n) = ltb n m

abbrev pub min : ℤ → ℤ → ℤ
min a b = if is_less b a then b else a

-- A call of `::listen`: its arguments, and what it returns.
pub record ListenCall : Type 0 where
  pub descriptor : ℤ
  pub backlog : ℤ
  pub answer : ℤ

-- What `listen` leaves: the object, the call of `::listen`, if it makes one, and what it returns.
pub record Listened : Type 0 where
  pub object : Socket
  pub call : Option ListenCall
  pub result : ℤ

-- `listen`, behind `findPeerInfo`, with `::listen`, whose result is not read, and with the result of
-- `setsockopt`.
unfoldable pub listen : Fcntl → Fcntl → (ℤ → ℤ → ℤ) → ℤ → ℤ → Search → Socket → Listened
listen status_flags fd_flags sys_listen reuse backlog r s =
    if is_held r.sock_fd
    then record {
      object = record (found r s) { socket_type = sock_listen; status = reuse };
      call = some (record {
        descriptor = r.sock_fd;
        backlog = backlog;
        answer = sys_listen r.sock_fd backlog;
      });
      result =
          min (socket_flags status_flags true o_nonblock r.sock_fd).result
            (close_on_exec fd_flags true r.sock_fd).result;
    }
    else record { object = found r s; call = none; result = negsuc 0 }

-- The word of a descriptor has been read, and the same word with the flags has been taken.
abbrev pub Sets : Fcntl → Flags → ℤ → Changed → Type 0
Sets sys flags fd c =
    (old : Flags) × (sys.get fd ≡ some old)
    × (c.result ≡ pos 0)
    × (c.written ≡ some (changed true flags old))

on_flags_outcomes :
    (sys : Fcntl) (flags : Flags) (fd : ℤ) (word : Option Flags)
    → sys.get fd ≡ word
    → Sets sys flags fd (on_flags sys true flags fd word)
      ⊎ (on_flags sys true flags fd word ≡ unchanged_flags)
on_flags_outcomes sys flags fd none e = inr refl
on_flags_outcomes sys flags fd (some old) e =
    elim (Bool-cases (sys.takes fd (changed true flags old))) [
      | inl taken ↦ inl (old, e, rw taken, rw taken)
      | inr denied ↦ inr (rw denied)
    ]

socket_flags_outcomes :
    (sys : Fcntl) (flags : Flags) (fd : ℤ)
    → is_held fd ≡ true
    → Sets sys flags fd (socket_flags sys true flags fd)
      ⊎ (socket_flags sys true flags fd ≡ unchanged_flags)
unfolding socket_flags
socket_flags_outcomes sys flags fd holds =
    rw holds (on_flags_outcomes sys flags fd (sys.get fd) refl)

close_on_exec_outcomes :
    (sys : Fcntl) (fd : ℤ)
    → is_held fd ≡ true
    → Sets sys fd_cloexec fd (close_on_exec sys true fd)
      ⊎ (close_on_exec sys true fd ≡ unchanged_flags)
unfolding close_on_exec
close_on_exec_outcomes sys fd holds =
    rw holds (on_flags_outcomes sys fd_cloexec fd (sys.get fd) refl)

module _ (status_flags fd_flags : Fcntl) (r : Search) where
  -- The object is a listener on its descriptor, on which `::listen` has been called, and which has both
  -- flags in addition to its earlier ones.
  abbrev pub IsPrepared : (ℤ → ℤ → ℤ) → ℤ → Listened → Type 0
  IsPrepared sys_listen backlog l =
      (l.object.sock_fd ≡ r.sock_fd)
      × (l.object.socket_type ≡ sock_listen)
      × (l.call
          ≡ some (record {
            descriptor = r.sock_fd;
            backlog = backlog;
            answer = sys_listen r.sock_fd backlog;
          }))
      × Sets status_flags o_nonblock r.sock_fd (socket_flags status_flags true o_nonblock r.sock_fd)
      × Sets fd_flags fd_cloexec r.sock_fd (close_on_exec fd_flags true r.sock_fd)

  -- There is no descriptor, or one of its words could not be read or written.
  abbrev pub Lacks : Type 0
  Lacks =
      (is_held r.sock_fd ≡ false)
      ⊎ (socket_flags status_flags true o_nonblock r.sock_fd ≡ unchanged_flags)
      ⊎ (close_on_exec fd_flags true r.sock_fd ≡ unchanged_flags)

  -- `listen` returns 0 or -1. It returns 0 only behind a search that has given a descriptor, which the
  -- object then holds as a listener, behind the call of `::listen` on it with the backlog, and with both
  -- words of flags written, with `O_NONBLOCK` and `FD_CLOEXEC` added to the bits that were set; and -1
  -- only without a descriptor, or if a word could not be read or written. Whether `::listen` has failed
  -- makes no difference: with any other answer of it the object and the result are the same.
  pub listen_outcomes :
      (sys_listen other : ℤ → ℤ → ℤ) (reuse backlog : ℤ) (s : Socket)
      → let l = listen status_flags fd_flags sys_listen reuse backlog r s in
        let l' = listen status_flags fd_flags other reuse backlog r s in
        (((l.result ≡ pos 0) × IsPrepared sys_listen backlog l) ⊎ ((l.result ≡ negsuc 0) × Lacks))
        × (l'.object ≡ l.object)
        × (l'.result ≡ l.result)
  unfolding listen
  listen_outcomes sys_listen other reuse backlog s = elim (Bool-cases (is_held r.sock_fd)) [
    | inr shut ↦ rw shut (inr (refl, inl refl), refl, refl)
    | inl holds ↦ rw holds (
      elim (socket_flags_outcomes status_flags o_nonblock r.sock_fd holds) [
        | inr denied ↦ elim (close_on_exec_outcomes fd_flags r.sock_fd holds) [
          | inr denied' ↦ inr (rw (denied, denied'), inr (inl denied))
          | inl (old, read, zero_, word) ↦ inr (rw (denied, zero_), inr (inl denied))
        ]
        | inl (old, read, zero_, word) ↦ elim (close_on_exec_outcomes fd_flags r.sock_fd holds) [
          | inr denied' ↦ inr (rw (zero_, denied'), inr (inr denied'))
          | inl (old', read', zero', word') ↦ inl (
            rw (zero_, zero'),
            (refl, refl, refl, (old, read, zero_, word), (old', read', zero', word')),
          )
        ]
      ],
      refl,
      refl,
    )
  ]
