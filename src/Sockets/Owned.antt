-- ===== src/Sockets/Owned.antt =====
-- Who holds a descriptor: the invariant of a process's sockets, and the four ways in which an operation
-- changes who holds what.
use gicame.Prelude.{
  ℕ, ◌<◌, ◌≡◌, ◌≢◌, refl, arith, true, false, ◌==◌, ltb, some, Bool-cases, inl, inr,
}
use gicame.Sockets.World.{World, Object, absent, tcp, listener, put, opened, shut_positive, update}

-- The descriptor of an object, 0 for none.
abbrev pub fd_of : Object → ℕ
fd_of absent = 0
fd_of (tcp s) = s.sockfd
fd_of (listener l) = l.sockfd

-- Every descriptor that an object holds is open, no two objects hold the same, and every descriptor
-- that is open is held.
pub record IsOwned (w : World) : Type 0 where
  pub held : (i : ℕ) → 0 < fd_of (w.objects i) → w.is_open (fd_of (w.objects i)) ≡ true
  pub unique :
      (i j : ℕ) → 0 < fd_of (w.objects i) → fd_of (w.objects i) ≡ fd_of (w.objects j) → i ≡ j
  pub counted : (d : ℕ) → w.is_open d ≡ true → (0 < d) × (i : ℕ) × (fd_of (w.objects i) ≡ d)

-- An object is replaced by one with the same descriptor.
pub put_same-IsOwned :
    (i : ℕ) (o : Object) (w : World)
    → IsOwned w
    → fd_of o ≡ fd_of (w.objects i)
    → IsOwned (put i o w)
put_same-IsOwned i o w v e = record {
  held = λ j p. ground (arith, v.held j);
  unique = λ j k p q. ground (arith, v.unique j k);
  counted = λ d p. let (pos, j, h) = v.counted d p in (pos, j, ground (arith, h));
}

-- A new descriptor goes to an object that has none.
pub acquire-IsOwned :
    (i d : ℕ) (o : Object) (w : World)
    → IsOwned w
    → 0 < d
    → w.is_open d ≡ false
    → fd_of (w.objects i) ≡ 0
    → fd_of o ≡ d
    → IsOwned (put i o (opened (some d) w))
acquire-IsOwned i d o w v pos new none_held e = record {
  held = λ j p. ground (arith, v.held j);
  unique = λ j k p q. ground (arith, v.unique j k, v.held j, v.held k);
  counted = λ d' p. elim (Bool-cases (d == d')) [
    | inl same ↦ (ground arith, i, ground arith)
    | inr other ↦
        let (pos', j, h) = v.counted d' (ground (arith, p)) in (pos', j, ground (arith, h))
  ];
}

-- An object gives its descriptor up, which is closed.
pub release-IsOwned :
    (i : ℕ) (o : Object) (w : World)
    → IsOwned w
    → fd_of o ≡ 0
    → IsOwned (put i o (shut_positive (fd_of (w.objects i)) w))
      × ((shut_positive (fd_of (w.objects i)) w).bad_closes ≡ w.bad_closes)
release-IsOwned i o w v e = elim (Bool-cases (ltb 0 (fd_of (w.objects i)))) [
  | inr no_fd ↦ rw no_fd (put_same-IsOwned i o w v (ground arith), refl)
  | inl fd ↦ rw fd (
    record {
      held = λ j p. ground (arith, v.held j, v.unique i j);
      unique = λ j k p q. ground (arith, v.unique j k);
      counted = λ d p. given_up d (ground arith) (v.counted d (ground arith));
    },
    ground (arith, v.held i),
  )
]
  where
    given_up :
        (d : ℕ)
        → fd_of (w.objects i) ≢ d
        → (0 < d) × (j : ℕ) × (fd_of (w.objects j) ≡ d)
        → (0 < d) × (j : ℕ) × (fd_of (update w.objects i o j) ≡ d)
    given_up d other (pos, j, h) = (pos, j, ground (arith, h))

-- An object hands its descriptor over to one that has none.
pub hand_over-IsOwned :
    (i j : ℕ) (o o' : Object) (w : World)
    → IsOwned w
    → i ≢ j
    → fd_of (w.objects j) ≡ 0
    → fd_of o ≡ fd_of (w.objects i)
    → fd_of o' ≡ 0
    → IsOwned (put j o (put i o' w))
hand_over-IsOwned i j o o' w v apart free e e' = record {
  held = λ k p. ground (arith, v.held k, v.held i);
  unique = λ k l p q. ground (arith, v.unique k l, v.unique i k, v.unique i l);
  counted = λ d p.
      let (pos, k, h) = v.counted d p in
      elim (Bool-cases (i == k)) [
        | inl same ↦ (pos, j, ground (arith, h))
        | inr other ↦ (pos, k, ground (arith, h))
      ];
}
