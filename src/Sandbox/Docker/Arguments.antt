-- ===== src/Sandbox/Docker/Arguments.antt =====
-- The arguments of docker do not hang on the order in which a map is walked.
use mathlib.Core.Path.{subst}
use mathlib.Core.Logic.{∥∥₁_elim}
use mathlib.Core.List.{Perm, Nodup, Nodup-cons, Mem, mem-cons_self, is_set}
use mathlib.Core.HLevel.{Σ_set}
use native.Mathlib.Nat.{ℕ_set}
use mathlib.Core.List.Perm
use mathlib.Core.List.Permᴰ.{Permᴰ}
use go_spoc.Prelude.{ℕ, ◌≡◌, ◌≢◌, refl, sym, ap₂, ◌∙◌, true, false, List, [], ◌∷◌, map, arith}
use go_spoc.Prelude.Eq.{nat_eq}
use go_spoc.Sandbox.{ExecRequest}
use go_spoc.Sandbox.Docker.{string_lt, insert_entry, sorted_entries, docker_args}

string_lt_asym : (s t : List ℕ) → string_lt s t ≡ true → string_lt t s ≡ false
unfolding string_lt
string_lt_asym s [] h = cc
string_lt_asym [] (b ∷ t) h = refl
string_lt_asym (a ∷ s) (b ∷ t) h = ground (arith, h, string_lt_asym s t)

string_lt_total : (s t : List ℕ) → string_lt s t ≡ false → string_lt t s ≡ false → s ≡ t
unfolding string_lt
string_lt_total [] [] h k = refl
string_lt_total [] (b ∷ t) h k = cc
string_lt_total (a ∷ s) [] h k = cc
string_lt_total (a ∷ s) (b ∷ t) h k = ground (arith, h, k, string_lt_total s t)

string_lt_trans :
    (s t u : List ℕ) → string_lt s t ≡ false → string_lt s u ≡ true → string_lt t u ≡ true
unfolding string_lt
string_lt_trans s t [] h k = cc
string_lt_trans [] [] (c ∷ u) h k = refl
string_lt_trans [] (b ∷ t) (c ∷ u) h k = cc
string_lt_trans (a ∷ s) [] (c ∷ u) h k = refl
string_lt_trans (a ∷ s) (b ∷ t) (c ∷ u) h k = ground (arith, h, k, string_lt_trans s t u)

abbrev pub Entry : Type 0
Entry = List ℕ × List ℕ

insert_comm :
    (a b : Entry) (es : List Entry)
    → a.0 ≢ b.0
    → insert_entry a (insert_entry b es) ≡ insert_entry b (insert_entry a es)
unfolding insert_entry
insert_comm a b [] ne = ground (arith, ne, string_lt_asym a.0 b.0, string_lt_total a.0 b.0)
insert_comm a b (f ∷ es) ne = ground (
  arith,
  ne,
  string_lt_asym a.0 b.0,
  string_lt_total a.0 b.0,
  string_lt_trans f.0 a.0 b.0,
  string_lt_trans f.0 b.0 a.0,
  insert_comm a b es ne,
)

-- Two listings of a map, whose keys are distinct.
sorted-Permᴰ :
    {es fs : List Entry}
    → Permᴰ es fs
    → Nodup (map (λ (e : Entry). e.0) es)
    → sorted_entries es ≡ sorted_entries fs
unfolding sorted_entries
sorted-Permᴰ Permᴰ.nil d = refl
sorted-Permᴰ (Permᴰ.cons {a} {b} {l₁} {l₂} e p) d =
    ap₂ insert_entry e (sorted-Permᴰ p (Nodup-cons.0 d).1)
sorted-Permᴰ (Permᴰ.swap {a} {b} {l = l} e f) d =
    let apart : a.0 ≢ b.0 = λ same.
      (Nodup-cons.0 d).0
        (subst (λ k. Mem k (b.0 ∷ map (λ (e : Entry). e.0) l)) (sym same) mem-cons_self) in
    insert_comm a b (sorted_entries l) apart ∙ λ i.
    insert_entry (f i) (insert_entry (e i) (sorted_entries l))
sorted-Permᴰ (Permᴰ.trans p q) d =
    sorted-Permᴰ p d ∙ sorted-Permᴰ q (Perm.nodup (Perm.map (λ (e : Entry). e.0) ∣ p ∣₁) d)

-- The arguments of docker are the same, in whatever order the entries of the map of environment
-- variables are met: its keys are distinct, and no other part of the request depends on the order.
pub docker_args-Perm :
    (req : ExecRequest) (env : List Entry)
    → Perm req.env env
    → Nodup (map (λ (e : Entry). e.0) req.env)
    → docker_args req ≡ docker_args (record req { env = env })
unfolding docker_args
docker_args-Perm req env p d =
    let sorted : sorted_entries req.env ≡ sorted_entries env =
      ∥∥₁_elim p (is_set (Σ_set (is_set ℕ_set) (λ _. is_set ℕ_set)) _ _) (λ q. sorted-Permᴰ q d) in
    rw sorted refl
