-- ===== src/Tests/Objects.antt =====
-- The theorems of the socket objects.
use aprs_wx.Prelude.{
  ℤ, Bool, Exception, [], codes, false, negsuc, none, ok, pos, refl, some, throws, true, undefined,
  ℕ, ◌+◌, ◌∷◌, ◌≡◌, ◌⊎◌,
}
use aprs_wx.Socket.Object.{Socket, close, connect, host_socket, move_assign, select}
use aprs_wx.Socket.Object.Flags.{Fcntl, IsPrepared, Lacks, listen, listen_outcomes}
use aprs_wx.Socket.Object.Refused.{select_refused}
use aprs_wx.Socket.Object.World.{
  Reach, World, connects_to, constructs, destroys, followed_by, gives_fresh, no_objects, unchanged,
  update,
}
use aprs_wx.Socket.Object.World.Lost.{IsLost, assigned, move_assign-IsLost}
use aprs_wx.Socket.Object.World.Owned.{IsOwned, Reach-IsOwned}
use aprs_wx.Socket.Peers.{Search, find_peer_info}
use aprs_wx.Tests.Starting.{network, peers}

abbrev nothing_open : ℕ → Bool
nothing_open n = false

abbrev client : Socket
client = host_socket (codes "cwop.aprs2.net") (codes "14580")

-- The second address of the examples accepts.
abbrev second : Search
second = record {
  sock_fd = pos 4;
  peer = some (record { family = 2; address = codes "a" });
  attempts = 2;
  closed = pos 3 ∷ [];
}

second_found : find_peer_info network (10 ∷ 2 ∷ 0 ∷ []) (some peers) ≡ ok second
unfolding find_peer_info
second_found = refl

-- Two objects, of which the first is connected.
abbrev one : World
one = record (no_objects nothing_open) {
  objects = update (no_objects nothing_open).objects 0 (some client);
}

abbrev two : World
two = record one { objects = update one.objects 1 (some client) }

abbrev linked : World
linked = record {
  objects = update two.objects 0 (some (connect (some (pos 0)) second client));
  opened = update nothing_open 4 true;
}

linked-Reach : Reach (no_objects nothing_open) linked
linked-Reach =
    followed_by
      (followed_by
        (followed_by unchanged (constructs 0 (codes "cwop.aprs2.net") (codes "14580") refl))
        (constructs 1 (codes "cwop.aprs2.net") (codes "14580") refl))
      (connects_to 0 client (some (pos 0)) network (10 ∷ 2 ∷ 0 ∷ []) peers second refl second_found
        (gives_fresh refl))

Reach-IsOwned_example : IsOwned linked.objects linked.opened
Reach-IsOwned_example = Reach-IsOwned linked-Reach

-- The first object, which is connected, is assigned the second, and both are destroyed.
abbrev first_linked : Socket
first_linked = connect (some (pos 0)) second client

abbrev emptied : World
emptied = record {
  objects = update (update (assigned linked 0 1 first_linked client).objects 0 none) 1 none;
  opened = linked.opened;
}

emptied-Reach : Reach (assigned linked 0 1 first_linked client) emptied
unfolding move_assign connect close
emptied-Reach =
    followed_by (followed_by unchanged (destroys 0 (move_assign first_linked client).0 refl))
      (destroys 1 (move_assign first_linked client).1 refl)

move_assign-IsLost_example : IsLost 4 emptied.objects emptied.opened
unfolding connect
move_assign-IsLost_example =
    move_assign-IsLost 0 1 4 first_linked client linked-Reach refl refl refl refl emptied-Reach

-- A system that takes all flags, on words without flags.
abbrev willing : Fcntl
willing = record { get = λ fd. some (λ b. false); takes = λ fd word. true }

-- `::listen` fails, or succeeds.
abbrev answers : ℤ → ℤ → ℤ → ℤ
answers z fd backlog = z

listen_outcomes_example :
    let l = listen willing willing (answers (negsuc 0)) (pos 0) (pos 5) second client in
    let l' = listen willing willing (answers (pos 0)) (pos 0) (pos 5) second client in
    (((l.result ≡ pos 0) × IsPrepared willing willing second (answers (negsuc 0)) (pos 5) l)
      ⊎ ((l.result ≡ negsuc 0) × Lacks willing willing second))
    × (l'.object ≡ l.object)
    × (l'.result ≡ l.result)
listen_outcomes_example =
    listen_outcomes willing willing second (answers (negsuc 0)) (answers (pos 0)) (pos 0) (pos 5)
      client

select_refused_example :
    (r : Search) × (find_peer_info
        (record { socket = λ n. pos (n + 3); accepts = λ n. false })
        (0 ∷ [])
        (some peers)
      ≡ ok r)
    × (select (connect none r client) (pos 1) 60 0 ≡ undefined)
    × (select client (pos 1) 60 0 ≡ throws Exception.logic_error)
select_refused_example =
    select_refused (record { socket = λ n. pos (n + 3); accepts = λ n. false }) (0 ∷ []) peers none
      (codes "cwop.aprs2.net") (codes "14580") (pos 1) 60 0 (λ k. refl)
