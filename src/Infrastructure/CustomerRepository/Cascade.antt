-- ===== src/Infrastructure/CustomerRepository/Cascade.antt =====
-- The licenses that the deletion of a customer in DrizzleCustomerRepository.ts takes.
use keyzori.Prelude.{
  String, List, [], ◌∷◌, Bool, true, none, ◌==◌, ◌≡◌, refl, sym, subst, arith, any, find, remove,
  eq_iff, Bool-cases, inl, inr,
}
use keyzori.Infrastructure.Database.{Database, StoredLicense}
use keyzori.Infrastructure.LicenseRepository.{delete, has_id, find_by_id, find_license}
use keyzori.Infrastructure.CustomerRepository.{drop_customer, delete_licenses, licenses_of}

-- A license of the list has that identifier.
abbrev pub among : List StoredLicense → String → Bool
among ls id = any (λ l. l.id == id) ls

-- A row that no removal has left is not found after another.
find-remove :
    (p q : StoredLicense → Bool) (xs : List StoredLicense)
    → find p xs ≡ none
    → find p (remove q xs) ≡ none
unfolding find remove
find-remove p q [] h = refl
find-remove p q (x ∷ xs) h = ground (arith, find-remove p q xs)

find-remove_self :
    (p : StoredLicense → Bool) (xs : List StoredLicense) → find p (remove p xs) ≡ none
unfolding find remove
find-remove_self p [] = refl
find-remove_self p (x ∷ xs) = ground (arith, find-remove_self p xs)

stays_gone :
    (id : String) (ls : List StoredLicense) (db : Database)
    → find (has_id id) db.licenses ≡ none
    → find (has_id id) (delete_licenses ls db).licenses ≡ none
unfolding delete_licenses delete
stays_gone id [] db h = h
stays_gone id (l ∷ ls) db h =
    stays_gone id ls (delete l.id db) (find-remove (has_id id) (has_id l.id) db.licenses h)

-- A license of the list is gone.
gone :
    (id : String) (ls : List StoredLicense) (db : Database)
    → among ls id ≡ true
    → find (has_id id) (delete_licenses ls db).licenses ≡ none
unfolding any delete_licenses delete
gone id [] db h = absurd cc
gone id (l ∷ ls) db h = elim (Bool-cases (l.id == id)) [
  | inl e ↦
      let same : l.id ≡ id = ground (arith, eq_iff l.id id) in
      stays_gone id ls (delete l.id db) (
        subst (λ i. find (has_id id) (remove (has_id i) db.licenses) ≡ none) (sym same)
          (find-remove_self (has_id id) db.licenses))
  | inr e ↦ gone id ls (delete l.id db) (ground arith)
]

-- The look-up of a license of the customer finds none.
pub dropped-gone :
    (customer_id id : String) (db : Database)
    → among (licenses_of customer_id db) id ≡ true
    → find_by_id id (drop_customer customer_id db) ≡ none
unfolding find_license drop_customer
dropped-gone customer_id id db h =
    let g = gone id (licenses_of customer_id db) db h in rw (find_license, drop_customer, g) refl
