-- ===== src/Cmd/Worker/Serves.antt =====
-- What the worker's goroutines are ready for.
use go_spoc.Prelude.{
  ℕ, zero, suc, ◌+◌, ◌≡◌, refl, ◌∙◌, String, Bool, true, false, ◌&&◌, List, [], ◌∷◌, Option, none,
  some, codes, length, All, arith, if◌then◌else◌,
}
use go_spoc.Prelude.Eq.{◌==◌, nat_eq, list_eq, list_beq_iff}
use go_spoc.Prelude.Int.{ℤ, pos, negsuc, pos_part, ltb_ℤ}
use go_spoc.World.{Env, World}
use go_spoc.Config.{load}
use go_spoc.Judge.Languages.{Judge, language}
use go_spoc.Judge.Languages as Judging
use go_spoc.Queue
use go_spoc.Storage.{
  Handle, Drivers, opened, closed, new, new_redis, dsn, redis_options, pinged, pool, client,
}
use go_spoc.Storage.Held.{Held, none_more, opening, closing}
use go_spoc.Cmd.{Ran, deferred, behind}
use go_spoc.Worker as Work
use go_spoc.Worker.Pool.{Consumer, start, consumers_from}
use go_spoc.Submission.Handler.{allowed_language}
use go_spoc.Cmd.Worker.{main, on_queue, on_redis, on_pool, name_prefix, judge_config}

abbrev pub is_some : {A : Type 0} → Option A → Bool
is_some none = false
is_some (some _) = true

-- The judge has a language exactly if the API takes submissions in it.
abbrev pub Serves : Consumer → Type 0
Serves c = (name : List ℕ) → is_some (language name c.judge.languages) ≡ allowed_language name

beq_comm : (xs ys : List ℕ) → (xs == ys) ≡ (ys == xs)
beq_comm xs ys = ground (arith, list_beq_iff xs ys, list_beq_iff ys xs)

new-Serves :
    (cfg : Judging.Config) (name : List ℕ)
    → is_some (language name (Judging.new cfg).languages) ≡ allowed_language name
unfolding Judging.new language
new-Serves cfg name = ground (arith, beq_comm name (codes "python"), beq_comm name (codes "go"))

consumers-Serves :
    (wk : Work.Worker) (cfg : Judging.Config) (i n : ℕ)
    → All Serves (consumers_from wk (Judging.new cfg) i n)
consumers-Serves wk cfg i zero = tt
consumers-Serves wk cfg i (suc n) = (new-Serves cfg, consumers-Serves wk cfg (i + 1) n)

length-consumers : (wk : Work.Worker) (j : Judge) (i n : ℕ) → length (consumers_from wk j i n) ≡ n
length-consumers wk j i zero = refl
length-consumers wk j i (suc n) = omega (arith, length-consumers wk j (i + 1) n)

-- The goroutines for a setting: one at least.
abbrev pub at_least_one : ℤ → ℕ
at_least_one (pos zero) = 1
at_least_one (pos (suc n)) = suc n
at_least_one (negsuc n) = 1

start-length :
    (has_publisher : Bool) (concurrency : ℤ) (prefix : List ℕ) (j : Judge)
    → length (start (Work.new has_publisher concurrency prefix) j) ≡ at_least_one concurrency
unfolding start Work.new
start-length has_publisher concurrency prefix j =
    length-consumers (Work.new has_publisher concurrency prefix) j 0 _ ∙ at_least concurrency
  where
    at_least : (c : ℤ) → pos_part (if ltb_ℤ c (pos 1) then pos 1 else c) ≡ at_least_one c
    at_least (pos zero) = refl
    at_least (pos (suc n)) = ground arith
    at_least (negsuc n) = ground arith

module _ (getenv : String → List ℕ) (drivers : Drivers) (host : List ℕ) (pid : ℤ) where
  -- What the worker starts where the two servers answer or do not, and what it leaves open.
  abbrev Ready : Bool → Ran (List Consumer) → Type 0
  Ready ready (consumers, log) =
      All Serves consumers
      × length consumers ≡ (if ready then at_least_one (load getenv).worker_concurrency else 0)
      × Held [] log []

  on_queue-Serves :
      (ready : Bool) (db redis : Handle)
      → Ready ready (
        on_queue getenv drivers host pid ready,
        opened db ∷ opened redis ∷ closed redis ∷ closed db ∷ [],
      )
  unfolding start
  on_queue-Serves false db redis = (tt, refl, opening (opening (closing (closing none_more))))
  on_queue-Serves true db redis = (
    consumers-Serves _ (judge_config (load getenv)) 0 _,
    start-length true (load getenv).worker_concurrency (name_prefix host pid) _,
    opening (opening (closing (closing none_more))),
  )

  on_pool-Serves :
      (d : List ℕ) (valid answers : Bool) (env : Env) (w : World)
      → Ready
          (valid
            && answers
            && drivers.ping_client (redis_options (load getenv))
            && (Queue.new env w).0)
          (on_pool getenv drivers host pid
            (if valid then pinged (pool d) answers else (none, []))
            env
            w).0
  unfolding new_redis
  on_pool-Serves d false answers env w = (tt, refl, none_more)
  on_pool-Serves d true false env w = (tt, refl, opening (closing none_more))
  on_pool-Serves d true true env w = on_ping (drivers.ping_client (redis_options (load getenv)))
    where
      on_ping :
          (b : Bool)
          → Ready
              (b && (Queue.new env w).0)
              (behind
                (opened (pool d) ∷ [])
                (deferred
                  (λ _. true)
                  (pool d)
                  (on_redis getenv drivers host pid
                    (pinged (client (redis_options (load getenv))) b)))
                env
                w).0
      on_ping false = (tt, refl, opening (opening (closing (closing none_more))))
      on_ping true =
          on_queue-Serves (Queue.new env w).0 (pool d) (client (redis_options (load getenv)))

  -- A worker that reaches its database, its Redis server and its consumer group starts as many
  -- goroutines as the setting says, but at least one, and none otherwise; the judge of each has an
  -- entry for exactly the languages in which the API takes submissions; and no connection is left
  -- open, each being closed once, the last one first.
  pub main-Serves :
      (env : Env) (w : World)
      → let cfg = load getenv in
        let (consumers, log) = (main getenv drivers host pid env w).0 in
        All Serves consumers
        × length consumers ≡ (
            if drivers.new_pool (dsn cfg)
              && drivers.ping_pool (dsn cfg)
              && drivers.ping_client (redis_options cfg)
              && (Queue.new env w).0
            then at_least_one (load getenv).worker_concurrency
            else 0)
        × Held [] log []
  unfolding main new
  main-Serves env w =
      on_pool-Serves (dsn (load getenv)) (drivers.new_pool (dsn (load getenv)))
        (drivers.ping_pool (dsn (load getenv))) env w
