-- ===== src/Sockets/Valid.antt =====
-- The invariant of the sockets of a process, and the ways in which an operation may keep it.
use gicame.Prelude.{
  ℕ, ◌<◌, ◌≡◌, refl, Bool, true, false, ◌==◌, ltb, Option, none, some, List, [], ◌∷◌, Bool-cases,
  inl, inr, ◌⊎◌,
}
use gicame.Sockets.World.{
  World, Object, listener, put, opened, shut_positive, update, Event, new_socket, listen_on,
  accept_from, step,
}
use gicame.Sockets.Owned.{fd_of, IsOwned, put_same-IsOwned, acquire-IsOwned, release-IsOwned}

-- A listening socket that does not listen holds no descriptor.
abbrev pub Idle : Object → Type 0
Idle (listener l) = l.listening ≡ false → l.sockfd ≡ 0
Idle _ = Unit

pub record IsValid (w : World) : Type 0 where
  pub owned : IsOwned w
  pub idle : (i : ℕ) → Idle (w.objects i)

-- A descriptor that the kernel gives is positive and was not open: 0 belongs to standard input.
abbrev pub Fresh : Option ℕ → World → Type 0
Fresh none w = Unit
Fresh (some d) w = (0 < d) × (w.is_open d ≡ false)

-- Where `listenTo` gets a descriptor, `bind` and `listen` succeed.
abbrev pub Listens : Option ℕ → Bool → Bool → Type 0
Listens none b l = Unit
Listens (some d) b l = (b ≡ true) × (l ≡ true)

abbrev pub Granted : Event → World → Type 0
Granted (new_socket i family answer) w = Fresh answer w
Granted (listen_on i answer bind_ok listen_ok) w = Fresh answer w × Listens answer bind_ok listen_ok
Granted (accept_from i j answer) w = Fresh answer w
Granted _ w = Unit

abbrev pub AllGranted : List Event → World → Type 0
AllGranted [] w = Unit
AllGranted (e ∷ es) w = Granted e w × AllGranted es (step e w)

-- The operation keeps the invariant, and closes no descriptor that is not open.
abbrev pub Keeps : World → World → Type 0
Keeps w w' = IsValid w' × (w'.bad_closes ≡ w.bad_closes)

pub Idle-put :
    (i : ℕ) (o : Object) (w : World) → Idle o → IsValid w → (j : ℕ) → Idle (update w.objects i o j)
Idle-put i o w p v j = elim (Bool-cases (i == j)) [
  | inl same ↦ rw same p
  | inr other ↦ rw other (v.idle j)
]

pub put-Keeps :
    (i : ℕ) (o : Object) (w : World)
    → IsValid w
    → Idle o
    → fd_of o ≡ fd_of (w.objects i)
    → Keeps w (put i o w)
put-Keeps i o w v p e =
    (record { owned = put_same-IsOwned i o w v.owned e; idle = Idle-put i o w p v }, refl)

pub acquire-Keeps :
    (i d : ℕ) (o : Object) (w : World)
    → IsValid w
    → Fresh (some d) w
    → Idle o
    → fd_of (w.objects i) ≡ 0
    → fd_of o ≡ d
    → Keeps w (put i o (opened (some d) w))
acquire-Keeps i d o w v (pos, new) p z e = (
  record { owned = acquire-IsOwned i d o w v.owned pos new z e; idle = Idle-put i o w p v },
  refl,
)

pub release-Keeps :
    (i : ℕ) (o : Object) (w : World)
    → IsValid w
    → Idle o
    → fd_of o ≡ 0
    → Keeps w (put i o (shut_positive (fd_of (w.objects i)) w))
release-Keeps i o w v p z =
    let (owned, closes) = release-IsOwned i o w v.owned z in
    (record { owned = owned; idle = idle_after (Bool-cases (ltb 0 (fd_of (w.objects i)))) }, closes)
  where
    idle_after :
        ((ltb 0 (fd_of (w.objects i)) ≡ true) ⊎ (ltb 0 (fd_of (w.objects i)) ≡ false))
        → (j : ℕ) → Idle (update (shut_positive (fd_of (w.objects i)) w).objects i o j)
    idle_after (inl fd) j = rw fd (Idle-put i o w p v j)
    idle_after (inr no_fd) j = rw no_fd (Idle-put i o w p v j)
