-- ===== src/Tests/Memory.antt =====
-- A store in memory that answers as Redis does.
use keyzori.Prelude.{
  ℕ, Bool, false, leb, suc, ◌≡◌, refl, String, List, [], ◌∷◌, ◌==◌, ◌||◌, ◌&&◌, not, Option, none,
  some, if◌then◌else◌, length, arith, eq_iff, remove,
}
use keyzori.Domain.Decimal.{show_decimal, read_number, read-show}
use keyzori.Infrastructure.Redis.{Redis, elem}

-- A string key's value, and a set key's members.
pub record Memory : Type 0 where
  pub value : String → Option String
  pub set : String → List String

abbrev add : String → List String → List String
add m xs = if elem m xs then xs else m ∷ xs

elem-add : (m x : String) (xs : List String) → elem x (add m xs) ≡ (m == x || elem x xs)
unfolding elem
elem-add m x xs = ground (arith, eq_iff m x)

elem-remove :
    (m x : String) (xs : List String)
    → elem x (remove (λ y. y == m) xs) ≡ (elem x xs && not (m == x))
unfolding elem remove
elem-remove m x [] = refl
elem-remove m x (y ∷ ys) = ground (arith, elem-remove m x ys, eq_iff y x, eq_iff y m, eq_iff m x)

abbrev set_value : String → Option String → Memory → Memory
set_value k v s = record s { value = λ j. if k == j then v else s.value j }

abbrev set_members : String → List String → Memory → Memory
set_members k xs s = record s { set = λ j. if k == j then xs else s.set j }

pub elem-sadd :
    (k j m x : String) (s : Memory)
    → elem x ((set_members k (add m (s.set k)) s).set j) ≡ ((k == j && m == x) || elem x (s.set j))
elem-sadd k j m x s = ground (arith, elem-add m x (s.set k), eq_iff k j)

pub elem-srem :
    (k j m x : String) (s : Memory)
    → elem x ((set_members k (remove (λ y. y == m) (s.set k)) s).set j)
      ≡ (elem x (s.set j) && not (k == j && m == x))
elem-srem k j m x s = ground (arith, elem-remove m x (s.set k), eq_iff k j)

pub card-sadd :
    (k m : String) (s : Memory)
    → length ((set_members k (add m (s.set k)) s).set k)
      ≡ (if elem m (s.set k) then length (s.set k) else suc (length (s.set k)))
card-sadd k m s = ground (arith, eq_iff k k)

-- Only texts of digits, which are what the program writes, are numbers here.
unfoldable pub reads_at_least : String → ℕ → Bool
reads_at_least text n = elim (read_number text) [ none ↦ false | some k ↦ leb n k ]

pub reads-show : (n m : ℕ) → reads_at_least (show_decimal n) m ≡ leb m n
unfolding reads_at_least
reads-show n m = rw (reads_at_least, read-show n) refl

abbrev pub memory : Redis
memory = record {
  Store = Memory;
  get = λ s k. s.value k;
  members = λ s k. s.set k;
  set_ex = λ k v ttl s. set_value k (some v) s;
  del = λ k s. set_members k [] (set_value k none s);
  expire = λ k ttl s. s;
  sadd = λ k m s. set_members k (add m (s.set k)) s;
  srem = λ k m s. set_members k (remove (λ y. y == m) (s.set k)) s;
  reaches = reads_at_least;
  reaches-show = reads-show;
  get-set_ex = λ k j v ttl s h. refl;
  members-set_ex = λ k j v ttl s h. refl;
  get-del = λ k j s. refl;
  members-del = λ k j s. refl;
  get-expire = λ k j ttl s h. refl;
  members-expire = λ k j ttl s h. refl;
  get-sadd = λ k j m s h. refl;
  elem-sadd = elem-sadd;
  card-sadd = card-sadd;
  get-srem = λ k j m s h. refl;
  elem-srem = elem-srem;
}
