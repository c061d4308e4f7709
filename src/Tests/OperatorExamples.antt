-- ===== src/Tests/OperatorExamples.antt =====
-- The theorems about the query operators on concrete inputs.
use deep_spec_db.Base.{
  ℕ, zero, suc, ◌+◌, ◌≡◌, ◌↔◌, refl, sym, ap, ◌∙◌, arith, Bool, true, Option, some, none, List, [],
  ◌∷◌, ◌++◌, map, get_elem?, ◌==◌, ==-eq, ==_self, Bool-cases, if◌then◌else◌, put, inl, inr,
}
use mathlib.Core.Option.{some-injective}
use deep_spec_db.Relation.{Relation}
use deep_spec_db.Relation.Contents.{contents}
use deep_spec_db.Relation.Refines.{IsRelation}
use deep_spec_db.Fifo.{Queue, Heap, fifo_new}
use deep_spec_db.Fifo.Laws.{IsQueue, fifo_new-IsQueue}
use deep_spec_db.Schema.{Schema, index_lookup}
use deep_spec_db.Operators.{
  Attribute, int, str, same_domain, offset_from, get_offset, Key, word, keypair, field,
  get_projection, Iterator, SeqScanEnv, seq_scan, seq_scan_env, materialize, attribute_list_length,
}
use deep_spec_db.Operators.Columns.{
  IsNamed, no_columns, in_column, get_offset_lem, get_projection_lem,
}
use deep_spec_db.Operators.Iterators.{IsFresh, Yields}
use deep_spec_db.Operators.Scan.{materialize-seq_scan}
use deep_spec_db.Operators.Join.{
  JoinPlan, JoinEnv, index_join_init, other_words, new_length, join_tuples, index_join,
}
use deep_spec_db.Operators.Matches.{AllJoinable}
use deep_spec_db.Operators.Nested.{nested, index_join-nested, index_join-lost}

abbrev table : Relation (Option ℕ)
table = record {
  depth = 0;
  root = record {
    first = true;
    last = true;
    ptr0 = tt;
    entries = (3, some 30) ∷ (5, some 50) ∷ (8, some 80) ∷ [];
  };
  num_records = 3;
}

table-IsRelation : IsRelation table
unfolding contents deep_spec_db.Relation.Contents.to_list
table-IsRelation = record {
  ordered = ((omega arith, (omega arith, (omega arith, omega arith))), refl, refl);
  sized = (omega arith, omega arith);
  counted = refl;
}

abbrev next_block : ℕ → ℕ
next_block k = k + 1

next_block-IsFresh : IsFresh next_block
next_block-IsFresh = record {
  not_null = λ k e. absurd (omega (arith, e));
  new = λ j k lt e. absurd (omega (arith, e));
}

abbrev no_elems : Heap ℕ
no_elems a = record { data_of = 0; next = 0 }

materialize-seq_scan_example :
    (env' : SeqScanEnv ℕ) × (heap' : Heap ℕ) × (q : Queue) × (ps : List ℕ) × (materialize next_block
        4 seq_scan
        (seq_scan_env table)
        no_elems
      ≡ some (env', heap', q))
    × IsQueue heap' q ps
    × (map (λ a. (heap' a).data_of) ps ≡ 30 ∷ 50 ∷ 80 ∷ [])
unfolding contents deep_spec_db.Relation.Contents.to_list
materialize-seq_scan_example =
    materialize-seq_scan table table-IsRelation (30 ∷ 50 ∷ 80 ∷ []) refl next_block
      next_block-IsFresh 4 (omega arith) no_elems

abbrev column : ℕ → Attribute ℕ
column n = record { id = n; domain = int }

abbrev columns : List (Attribute ℕ)
columns = column 1 ∷ column 2 ∷ []

same_id : ℕ → ℕ → Bool
same_id a b = a == b

same_id_iff : (a b : ℕ) → (same_id a b ≡ true) ↔ (a ≡ b)
unfolding same_id
same_id_iff a b = ((λ h. ==-eq a b h), (λ e. ap (λ x. a == x) (sym e) ∙ ==_self a))

id_at : (m : ℕ) (a : Attribute ℕ) → get_elem? columns m ≡ some a → a.id ≡ m + 1
id_at zero a at = ap (λ (x : Attribute ℕ). x.id) (sym (some-injective _ a at))
id_at (suc zero) a at = ap (λ (x : Attribute ℕ). x.id) (sym (some-injective _ a at))
id_at (suc (suc m)) a at = cc

columns-IsNamed : IsNamed columns
columns-IsNamed m n a b at at' e = omega (arith, e, id_at m a at, id_at n b at')

get_offset_lem_example : get_offset same_id columns 2 str ≡ none
unfolding same_domain
get_offset_lem_example =
    get_offset_lem same_id same_id_iff 2 str columns 1 (column 2) refl refl
      (λ m b lt at e. absurd (omega (arith, e, id_at m b at)))

get_projection_lem_example :
    get_projection {W = ℕ} same_id columns (40 ∷ 50 ∷ []) (column 2 ∷ column 1 ∷ [])
    ≡ some (keypair 50 (word 40))
get_projection_lem_example =
    get_projection_lem same_id same_id_iff columns columns-IsNamed (40 ∷ 50 ∷ [])
      (column 2 ∷ column 1 ∷ []) (50 ∷ 40 ∷ [])
      (in_column 1 refl refl (in_column 0 refl refl no_columns))

next_tuple : List (List ℕ) → Option (Option (List ℕ) × List (List ℕ))
next_tuple [] = some (none, [])
next_tuple (t ∷ ts) = some (some t, ts)

-- The tuples of a list.
abbrev tuples : Iterator (List ℕ)
tuples = record { Env = List (List ℕ); init = λ ts. some ts; next = next_tuple; close = λ ts. ts }

queue_of : Key ℕ → Option ℕ
queue_of (word k) = if k == 7 then some 9 else none
queue_of (keypair k rest) = none

abbrev by_word : Schema (Key ℕ) ℕ
by_word = record {
  Index = ℕ;
  schema_new = 0;
  schema_insert = λ i key val. some (none, i);
  schema_lookup = λ i key. some (queue_of key);
}

-- Two inner tuples of the key 7.
abbrev elems : Heap (List ℕ)
elems a = record { data_of = 7 ∷ (a + 70) ∷ []; next = if a == 1 then 2 else 0 }

abbrev plan : JoinPlan ℕ ℕ
plan = record {
  strcmp_eq = same_id;
  outer = tuples;
  outer_attrs = columns;
  outer_join_attrs = column 1 ∷ [];
  inner_attrs = column 1 ∷ column 3 ∷ [];
  inner_join_attrs = column 1 ∷ [];
  ind_on_inner_sch = by_word;
  ind_on_inner = 0;
  heap = elems;
}

look : List ℕ → Option ℕ
look [] = none
look (w ∷ t) = queue_of (word w)

abbrev joined : List ℕ → ℕ → List ℕ
joined t p = t ++ (p + 70) ∷ []

abbrev inner : ℕ → List ℕ
inner = put (λ f. []) 9 (1 ∷ 2 ∷ [])

abbrev before : List (List ℕ) → JoinEnv plan
before ts = record {
  outer_env = ts;
  current_inner = none;
  current_outer = none;
  fifos = put (λ f. fifo_new) 9 (record { head = 1; tail = 2 });
}

two-IsQueue : IsQueue elems (record { head = 1; tail = 2 }) (1 ∷ 2 ∷ [])
two-IsQueue = record {
  chain = (refl, (λ e. absurd (omega (arith, e))), (refl, (λ e. absurd (omega (arith, e))), refl));
  distinct = (((λ e. absurd (omega (arith, e))), tt), (tt, tt));
  at_tail = refl;
}

inner-IsQueue : (ts : List (List ℕ)) (g : ℕ) → IsQueue elems ((before ts).fifos g) (inner g)
unfolding put
inner-IsQueue ts g = elim (Bool-cases (g == 9)) [
  | inl t ↦ rw t two-IsQueue
  | inr f ↦ rw f (fifo_new-IsQueue elems)
]

inner-AllJoinable :
    (g : ℕ) → AllJoinable plan look joined ((7 ∷ 5 ∷ []) ∷ (7 ∷ 6 ∷ []) ∷ []) (inner g)
unfolding put join_tuples other_words new_length attribute_list_length get_offset offset_from
    same_domain field same_id
inner-AllJoinable g = elim (Bool-cases (g == 9)) [
  | inl t ↦ rw t ((refl, (refl, tt)), ((refl, (refl, tt)), tt))
  | inr f ↦ rw f tt
]

one-AllJoinable : (g : ℕ) → AllJoinable plan look joined ((7 ∷ 5 ∷ []) ∷ []) (inner g)
unfolding put join_tuples other_words new_length attribute_list_length get_offset offset_from
    same_domain field same_id
one-AllJoinable g = elim (Bool-cases (g == 9)) [
  | inl t ↦ rw t ((refl, tt), ((refl, tt), tt))
  | inr f ↦ rw f tt
]

index_join-nested_example :
    (e' : JoinEnv plan) × (index_join_init plan (before ((7 ∷ 5 ∷ []) ∷ [])) ≡ some e')
    × Yields (index_join plan 2) e' (nested plan look joined inner ((7 ∷ 5 ∷ []) ∷ []))
unfolding next_tuple get_projection field get_offset offset_from same_domain same_id index_lookup
    look queue_of
index_join-nested_example =
    index_join-nested plan look joined ((7 ∷ 5 ∷ []) ∷ []) 2 (before ((7 ∷ 5 ∷ []) ∷ []))
      ((7 ∷ 5 ∷ []) ∷ []) inner refl ([], refl, ([], refl)) (omega arith) ((word 7, refl, refl), tt)
      (inner-IsQueue ((7 ∷ 5 ∷ []) ∷ [])) one-AllJoinable ((λ f e u. u), tt)

index_join-lost_example :
    (e' : JoinEnv plan) × (index_join_init plan (before ((7 ∷ 5 ∷ []) ∷ (7 ∷ 6 ∷ []) ∷ []))
      ≡ some e')
    × Yields (index_join plan 3) e' (map (joined (7 ∷ 5 ∷ [])) (inner 9))
    × (nested plan look joined inner ((7 ∷ 5 ∷ []) ∷ (7 ∷ 6 ∷ []) ∷ [])
        ≡ map (joined (7 ∷ 5 ∷ [])) (inner 9) ++ map (joined (7 ∷ 6 ∷ [])) (inner 9))
unfolding next_tuple get_projection field get_offset offset_from same_domain same_id index_lookup
    look queue_of
index_join-lost_example =
    index_join-lost plan look joined (7 ∷ 5 ∷ []) (7 ∷ 6 ∷ []) 9 3
      (before ((7 ∷ 5 ∷ []) ∷ (7 ∷ 6 ∷ []) ∷ [])) ((7 ∷ 5 ∷ []) ∷ (7 ∷ 6 ∷ []) ∷ []) inner refl refl
      refl ((7 ∷ 6 ∷ []) ∷ [], refl, ([], refl, ([], refl))) (omega arith)
      ((word 7, refl, refl), ((word 7, refl, refl), tt))
      (inner-IsQueue ((7 ∷ 5 ∷ []) ∷ (7 ∷ 6 ∷ []) ∷ [])) inner-AllJoinable
