-- ===== src/Cache/Fetcher/Tests.antt =====
-- Two tasks that ask for one key.
use async_substrate_interfac.Prelude.{ℕ, ◌≡◌, refl, Bool, [], ◌==◌, not, ℕ_discrete}
use async_substrate_interfac.Prelude.Dict.{lookup, put, remove}
use async_substrate_interfac.Cache.Lru.{init, get, set, move_to_end, pop_excess}
use async_substrate_interfac.Cache.Fetcher.{
  gives, interrupted, idle, fetching, waiting, returned, World, cached, is_pending, cancel, landed,
  wake, new_future, join, look, begin, set_result, finish, assign, begins, Reach, here, next,
}
use async_substrate_interfac.Cache.Fetcher.Single.{IsSingle, reach-IsSingle}
use async_substrate_interfac.Cache.Fetcher.Orphan.{IsStuck, reach-IsStuck}

abbrev truthy : ℕ → Bool
truthy n = not (n == 0)

abbrev start : World ℕ ℕ ℕ
start = record {
  fetcher = record { cache = init 2; inflight = []; futures = []; next_future = 0 };
  tasks = λ t. idle;
}

abbrev first : World ℕ ℕ ℕ
first = assign start 0 (begin ℕ_discrete truthy start.fetcher 7)

abbrev both : World ℕ ℕ ℕ
both = assign first 1 (begin ℕ_discrete truthy first.fetcher 7)

second_idle : first.tasks 1 ≡ idle
unfolding assign begin look join cached new_future landed cancel is_pending set_result finish wake
    get set move_to_end pop_excess init lookup put remove ℕ_discrete
second_idle = refl

run : Reach ℕ_discrete truthy start both
run = next (next here (begins 0 7 refl refl)) (begins 1 7 second_idle refl)

first_fetches : both.tasks 0 ≡ fetching 7 0
unfolding assign begin look join cached new_future landed cancel is_pending set_result finish wake
    get set move_to_end pop_excess init lookup put remove ℕ_discrete
first_fetches = refl

second_waits : both.tasks 1 ≡ waiting 7 0
unfolding assign begin look join cached new_future landed cancel is_pending set_result finish wake
    get set move_to_end pop_excess init lookup put remove ℕ_discrete
second_waits = refl

start-IsSingle : IsSingle ℕ_discrete start
unfolding lookup
start-IsSingle = record {
  sound = record {
    distinct = λ k k' f h h'. absurd (cc h);
    below = λ k f h. absurd (cc h);
    unset = λ k f v h. absurd (cc h);
  };
  owner = λ t k f h. absurd (cc h);
  unique = λ t t' k f f' h. absurd (cc h);
}

reach-IsSingle_example : IsSingle ℕ_discrete both
reach-IsSingle_example = reach-IsSingle ℕ_discrete truthy start both run start-IsSingle

-- The second gets the result of the first.
abbrev given : World ℕ ℕ ℕ
given = assign both 0 (finish ℕ_discrete both.fetcher 7 0 (gives 5))

second_woken :
    wake {Key = ℕ} {Error = ℕ} (waiting 7 0) (lookup ℕ_discrete 0 given.fetcher.futures)
    ≡ returned 5
unfolding assign begin look join cached new_future landed cancel is_pending set_result finish wake
    get set move_to_end pop_excess init lookup put remove ℕ_discrete
second_woken = refl

-- The first is cancelled, and a third task begins.
abbrev orphaned : World ℕ ℕ ℕ
orphaned = assign both 0 (finish ℕ_discrete both.fetcher 7 0 interrupted)

third_idle : orphaned.tasks 2 ≡ idle
unfolding assign begin look join cached new_future landed cancel is_pending set_result finish wake
    get set move_to_end pop_excess init lookup put remove ℕ_discrete
third_idle = refl

abbrev third : World ℕ ℕ ℕ
third = assign orphaned 2 (begin ℕ_discrete truthy orphaned.fetcher 7)

after_orphaned : Reach ℕ_discrete truthy orphaned third
after_orphaned = next here (begins 2 7 third_idle refl)

reach-IsStuck_example : IsStuck ℕ_discrete 7 0 (third.tasks 1)
reach-IsStuck_example =
    reach-IsStuck ℕ_discrete truthy 1 7 0 both third 0 7
      (reach-IsSingle ℕ_discrete truthy start both run start-IsSingle) first_fetches second_waits
      after_orphaned
