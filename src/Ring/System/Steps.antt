-- ===== src/Ring/System/Steps.antt =====
-- Starting a turn of a loop and loading the other side's index keep the invariant.
use mathlib.Core.List.{flatten}
use gicame.Prelude.{
  ℕ, zero, suc, ◌≡◌, refl, sym, ap, ap₂, subst, ◌∙◌, arith, List, [], ◌∷◌, ◌++◌, length, Bool-cases,
  inl, inr,
}
use gicame.Ring.{has_free_space, has_elems, load_tail, load_head}
use gicame.Ring.System.{
  next_push, next_pop, loading_head, System, out_chunk, in_chunk, start_push, start_pop,
  reload_tail, reload_head,
}
use gicame.Ring.Inv.{contents}
use gicame.Ring.Valid.{load_tail-IsValid, load_head-IsValid}
use gicame.Ring.System.Inv.{
  ProducerIsOk, ConsumerIsOk, total, Inv, ConsumerIsOk-producer, ProducerIsOk-consumer,
  has_free_space-HasRoom, has_elems-HasData,
}

pub start_push-Inv :
    {sent : List ℕ} {asked : ℕ} (pending : List ℕ) (calls : List (List ℕ)) (s : System)
    → s.pending ≡ pending
    → s.calls ≡ calls
    → s.producer ≡ next_push
    → Inv sent asked s
    → Inv sent asked (start_push pending calls s)
unfolding start_push flatten
start_push-Inv [] [] s ep ec pc inv = inv
start_push-Inv [] (c ∷ cs) s ep ec pc inv = record {
  valid = inv.valid;
  stream =
      ap₂ (λ p q. s.received ++ (contents s.ring ++ (p ++ flatten q))) (sym ep) (sym ec)
      ∙ inv.stream;
  counted = inv.counted;
  producing = subst (λ pc. ProducerIsOk pc s.ring c) (sym pc) tt;
  consuming = inv.consuming;
}
start_push-Inv (b ∷ bs) cs s ep ec pc inv = record {
  valid = inv.valid;
  stream = inv.stream;
  counted = inv.counted;
  producing = elim (Bool-cases (has_free_space s.ring (length (out_chunk s)))) [
    | inl e ↦ rw e (has_free_space-HasRoom (out_chunk s) inv.valid e)
    | inr e ↦ rw e tt
  ];
  consuming = inv.consuming;
}

pub start_pop-Inv :
    {sent : List ℕ} {asked : ℕ} (remaining : ℕ) (requests : List ℕ) (s : System)
    → s.remaining ≡ remaining
    → s.requests ≡ requests
    → s.consumer ≡ next_pop
    → Inv sent asked s
    → Inv sent asked (start_pop remaining requests s)
unfolding start_pop
start_pop-Inv zero [] s er eq pc inv = inv
start_pop-Inv zero (n ∷ ns) s er eq pc inv = record {
  valid = inv.valid;
  stream = inv.stream;
  counted = omega (arith, inv.counted, ap total eq);
  producing = inv.producing;
  consuming =
      subst (λ pc. ConsumerIsOk pc s.ring n s.staged) (sym pc)
        (subst (λ pc. ConsumerIsOk pc s.ring s.remaining s.staged) pc inv.consuming);
}
start_pop-Inv (suc n) ns s er eq pc inv = record {
  valid = inv.valid;
  stream = inv.stream;
  counted = inv.counted;
  producing = inv.producing;
  consuming = elim (Bool-cases (has_elems s.ring (in_chunk s))) [
    | inl e ↦ rw e (has_elems-HasData s.ring (in_chunk s) e, unstaged)
    | inr e ↦ rw e unstaged
  ];
}
  where
    unstaged : s.staged ≡ []
    unstaged = subst (λ pc. ConsumerIsOk pc s.ring s.remaining s.staged) pc inv.consuming

pub reload_tail-Inv :
    {sent : List ℕ} {asked : ℕ} (s : System) → Inv sent asked s → Inv sent asked (reload_tail s)
unfolding reload_tail load_tail
reload_tail-Inv s inv = record {
  valid = load_tail-IsValid inv.valid;
  stream = inv.stream;
  counted = inv.counted;
  producing = elim (Bool-cases (has_free_space (load_tail s.ring) (length (out_chunk s)))) [
    | inl e ↦ rw e (has_free_space-HasRoom (out_chunk s) (load_tail-IsValid inv.valid) e)
    | inr e ↦ rw e tt
  ];
  consuming =
      ConsumerIsOk-producer s.consumer s.ring s.ring.buffer.cell s.ring.head s.ring.tail s.remaining
        s.staged inv.valid (λ m le. refl) inv.consuming;
}

pub reload_head-Inv :
    {sent : List ℕ} {asked : ℕ} (s : System)
    → s.consumer ≡ loading_head
    → Inv sent asked s
    → Inv sent asked (reload_head s)
unfolding reload_head load_head
reload_head-Inv s pc inv = record {
  valid = load_head-IsValid inv.valid;
  stream = inv.stream;
  counted = inv.counted;
  producing =
      ProducerIsOk-consumer s.producer s.ring s.ring.tail s.ring.head s.pending inv.producing;
  consuming = elim (Bool-cases (has_elems (load_head s.ring) (in_chunk s))) [
    | inl e ↦ rw e (has_elems-HasData (load_head s.ring) (in_chunk s) e, unstaged)
    | inr e ↦ rw e unstaged
  ];
}
  where
    unstaged : s.staged ≡ []
    unstaged = subst (λ pc. ConsumerIsOk pc s.ring s.remaining s.staged) pc inv.consuming
