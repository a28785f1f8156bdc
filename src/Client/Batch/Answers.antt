-- ===== src/Client/Batch/Answers.antt =====
-- What the batch queries of client.go return for each hash, against the single queries.
use go_conflux_sdk.Base.{
  ◌≡◌, refl, ap, ◌∙◌, Bool, true, false, Option, none, some, List, [], ◌∷◌, map, map-map, Text,
  text_eq_iff, if◌then◌else◌, arith,
}
use go_conflux_sdk.Base.Dict.{Dict, lookup, insert, lookup-insert}
use go_conflux_sdk.Result.{ok}
use go_conflux_sdk.Client.Requester.{BatchElem, Answer, Requester}
use go_conflux_sdk.Types.Address.{Hash}
use go_conflux_sdk.Client.Batch.{
  member, distinct, pointers, Results, held, result_of, collect, batch_get,
}

member-distinct : (h : Text) (xs : List Text) → member h (distinct xs) ≡ member h xs
unfolding member distinct
member-distinct h [] = refl
member-distinct h (x ∷ xs) = ground (arith, member-distinct h xs, text_eq_iff x h)

lookup-pointers :
    {T : Type 0} (f : Text → T) (h : Text) (xs : List Text)
    → member h xs ≡ true
    → lookup h (pointers xs (map f xs)) ≡ some (f h)
unfolding member pointers lookup
lookup-pointers f h [] e = absurd (cc e)
lookup-pointers f h (x ∷ xs) e = ground (arith, lookup-pointers f h xs, text_eq_iff x h)

lookup-collect :
    {T : Type 0} (empty : T) (table : Dict T) (h : Text) (hs : List Text) (d : Dict (Option T))
    → lookup h (collect empty table hs d)
      ≡ (if member h hs then some (some (result_of empty table h)) else lookup h d)
unfolding member collect
lookup-collect empty table h [] d = refl
lookup-collect empty table h (x ∷ xs) d = ground (
  arith,
  lookup-collect empty table h xs (insert x (some (result_of empty table x)) d),
  lookup-insert x h (some (result_of empty table x)) d,
  text_eq_iff x h,
)

pub if_member :
    {A : Type 0} (b : Bool) (p q r : A)
    → (b ≡ true → p ≡ q)
    → (if b then p else r) ≡ (if b then q else r)
if_member true p q r e = e refl
if_member false p q r e = refl

module _ {T : Type 0} (order : List Text → List Text)
    (covers : (ks : List Text) (h : Text) → member h ks ≡ true → member h (order ks) ≡ true)
    (R : Results T) (answers : Hash → Answer) where
  -- The pointers of the elements by their keys, when each has its answer.
  abbrev pub filled : List Text → Dict T
  filled hs = pointers (order (distinct hs)) (map (held R) (map answers (order (distinct hs))))

  pub result_of-order :
      (hs : List Text) (h : Text)
      → member h hs ≡ true
      → result_of R.empty (filled hs) h ≡ held R (answers h)
  unfolding result_of
  result_of-order hs h e =
      rw
        (
          map-map (held R) answers (order (distinct hs)),
          lookup-pointers (λ k. held R (answers k)) h (order (distinct hs))
              (covers (distinct hs) h (member-distinct h hs ∙ e)),
        )
        refl

  module _ {W : Type 0} (Q : Requester W) (elem : Hash → BatchElem) where
    -- When a batch brings an answer for each of its elements, a result or an error, and whatever the order
    -- in which Go ranges over the map of the elements, the map that a batch query returns has for each hash
    -- that was asked for what is read from the answer to that hash, the empty value in place of an error,
    -- and nothing else.
    pub batch_get_lem :
        (hashes : List Hash) (w w' : W)
        → ((ks : List Text) → Q.batch (map elem ks) w ≡ (ok (map answers ks), w'))
        → (d : Dict (Option T)) × ((batch_get order Q R elem hashes w).0 ≡ ok d)
          × ((h : Hash)
              → lookup h d ≡ (if member h hashes then some (some (held R (answers h))) else none))
    unfolding batch_get lookup member
    batch_get_lem [] w w' sends = ([], refl, λ h. refl)
    batch_get_lem (x ∷ xs) w w' sends = (
      collect R.empty (filled (x ∷ xs)) (x ∷ xs) [],
      rw (sends (order (distinct (x ∷ xs)))) refl,
      λ h.
          lookup-collect R.empty (filled (x ∷ xs)) h (x ∷ xs) []
          ∙ if_member (member h (x ∷ xs)) _ _ _
              λ e. ap (λ (t : T). some (some t)) (result_of-order (x ∷ xs) h e),
    )
