-- ===== src/Tests/Queries.antt =====
-- Queries and their filters, and log entries in batches, at concrete values.
use rocket_toolkit.Prelude.{ℕ, suc, ◌≡◌, refl, Bool, false, none, some, List, [], ◌∷◌, ◌++◌, arith}
use rocket_toolkit.KnexFilters.Names.{Text, Name, text_eq, split_table_and_alias}
use rocket_toolkit.KnexFilters.QueryBuilder.{
  Query, Hooks, one, other_method, simple, apply_filter, left,
}
use rocket_toolkit.KnexFilters.Register.{create_filter}
use rocket_toolkit.KnexFilters.Register.Filtered.{apply_filter-create_filter}
use rocket_toolkit.PinoMssqlserver.Queue.{
  Processor, Reach, start, logged, flushed, flush, enqueue, take_batch, empty_processor,
}
use rocket_toolkit.PinoMssqlserver.ConnectionString.{get, parsed}
use rocket_toolkit.PinoMssqlserver.ConnectionString.Lookup.{get-parsed}
use rocket_toolkit.PinoMssqlserver.Transport.{splicing}
use rocket_toolkit.PinoMssqlserver.Database.{close, close_lem}
use rocket_toolkit.PinoMssqlserver.Queue.Order.{concat_all, AllWithin, concat_all-flush}

-- "dbo" and "a"
abbrev dbo : Text
dbo = 100 ∷ 98 ∷ 111 ∷ []

abbrev table_a : Text
table_a = 97 ∷ []

-- the state of a builder counts the hooks that ran
abbrev counting : Hooks ℕ ℕ
counting = record {
  on_select = some (simple (λ table alias clause b. suc b));
  on_insert = some (λ table alias row b. suc b);
  on_update = some (λ table alias row b. suc b);
  on_delete = some (λ table alias b. suc b);
}

abbrev is_dbo : Name → Bool
is_dbo none = false
is_dbo (some t) = text_eq t dbo

abbrev selecting : ℕ → Query ℕ
selecting b = record {
  method = some other_method;
  table = some table_a;
  inserted = one 0;
  updates = 0;
  statements = record { table = some table_a; join_type = some left } ∷ [];
}

apply_filter-create_filter_example : apply_filter selecting (create_filter is_dbo counting) 3 ≡ 3
unfolding split_table_and_alias
apply_filter-create_filter_example =
    apply_filter-create_filter is_dbo counting selecting 3 refl (refl, tt)

abbrev entries : List ℕ
entries = 1 ∷ 2 ∷ 3 ∷ []

abbrev after_two : Processor ℕ
after_two = take_batch 2 (enqueue 2 (enqueue 1 empty_processor))

abbrev three_logged : Reach 2 entries (enqueue 3 after_two)
three_logged = logged 3 (flushed (logged 2 (logged 1 start)))

concat_all-flush_example :
    (concat_all (flush 3 2 entries) ≡ entries) × AllWithin 2 (flush 3 2 entries)
concat_all-flush_example = concat_all-flush 1 3 entries (omega arith)

close_lem_example :
    ((enqueue 3 after_two).given ++ concat_all (close (splicing 2) 2 (enqueue 3 after_two))
      ≡ entries)
    × AllWithin 2 (close (splicing 2) 2 (enqueue 3 after_two))
unfolding enqueue take_batch
close_lem_example = close_lem (splicing 2) 2 three_logged (omega arith) (omega arith)

-- "k=a;k=k"
abbrev two_pairs : Text
two_pairs = 107 ∷ 61 ∷ 97 ∷ 59 ∷ 107 ∷ 61 ∷ 107 ∷ []

abbrev key_k : Text
key_k = 107 ∷ []

get-parsed_example : get key_k (parsed two_pairs) ≡ some key_k
get-parsed_example =
    get-parsed key_k table_a ((key_k, key_k) ∷ []) ((refl, tt), (refl, tt), (refl, tt))
      ((refl, tt), (refl, tt), (refl, tt))
      (((refl, tt), (refl, tt), (refl, tt)), ((refl, tt), (refl, tt), (refl, tt)), tt) key_k
