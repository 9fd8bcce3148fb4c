-- ===== src/Client/Subscriptions/Teardown.antt =====
-- `unsubscribe_all` empties the table.
use ads_go.Base.{
  ℕ, ◌≡◌, ◌≢◌, refl, ap, ◌∙◌, false, List, [], ◌∷◌, ok, arith, All, ◌==◌, Bool-cases, inl, inr,
}
use ads_go.Wire.{Bytes}
use ads_go.Client.Commands.{AdsCommandRequest, Action}
use ads_go.Client.Subscriptions.{
  ActiveSubscription, Session, delete_request, delete_key, unsubscribe, unsubscribe_each,
  unsubscribe_all,
}

module _ {V : Type 0} where
  -- The keys of the first list are deleted from the second.
  abbrev delete_each : List (ℕ × V) → List (ℕ × V) → List (ℕ × V)
  delete_each [] table = table
  delete_each (entry ∷ entries) table = delete_each entries (delete_key entry.0 table)

  data HasKey (key : ℕ) : List (ℕ × V) → Type 0 where
    first : {v : V} {table : List (ℕ × V)} → HasKey key ((key, v) ∷ table)
    later : {entry : ℕ × V} {table : List (ℕ × V)} → HasKey key table → HasKey key (entry ∷ table)

  HasKey-later :
      (key k : ℕ) (v : V) (entries : List (ℕ × V))
      → (k == key) ≡ false
      → HasKey k ((key, v) ∷ entries)
      → HasKey k entries
  HasKey-later key k v entries other first = absurd (eqb_irrefl k other)
    where
      eqb_irrefl : (k : ℕ) → (k == k) ≢ false
      eqb_irrefl k e = ground (arith, e)
  HasKey-later key k v entries other (later h) = h

  delete_key-HasKey :
      (key : ℕ) (v : V) (entries table : List (ℕ × V))
      → All (λ entry. HasKey entry.0 ((key, v) ∷ entries)) table
      → All (λ entry. HasKey entry.0 entries) (delete_key key table)
  delete_key-HasKey key v entries [] h = tt
  delete_key-HasKey key v entries ((k, u) ∷ table) h = elim (Bool-cases (k == key)) [
    | inl same ↦ rw same (delete_key-HasKey key v entries table h.1)
    | inr other ↦
        rw other (HasKey-later key k v entries other h.0, delete_key-HasKey key v entries table h.1)
  ]

  delete_each-nil :
      (entries table : List (ℕ × V))
      → All (λ entry. HasKey entry.0 entries) table
      → delete_each entries table ≡ []
  delete_each-nil [] [] h = refl
  delete_each-nil [] (entry ∷ table) h = elim h.0 [ ]
  delete_each-nil ((key, v) ∷ entries) table h =
      delete_each-nil entries (delete_key key table) (delete_key-HasKey key v entries table h)

  All-later :
      (entry : ℕ × V) (entries table : List (ℕ × V))
      → All (λ e. HasKey e.0 entries) table
      → All (λ e. HasKey e.0 (entry ∷ entries)) table
  All-later entry entries [] h = tt
  All-later entry entries (e ∷ table) h = (later h.0, All-later entry entries table h.1)

  own_keys : (table : List (ℕ × V)) → All (λ entry. HasKey entry.0 table) table
  own_keys [] = tt
  own_keys ((key, v) ∷ table) = (first, All-later (key, v) table table (own_keys table))

-- Each subscription stands under its own handle.
abbrev pub IsKeyed : {C : Type 0} → List (ℕ × ActiveSubscription C) → Type 0
IsKeyed = All (λ entry. entry.1.handle ≡ entry.0)

module _ {S C : Type 0} (send : AdsCommandRequest → Action S Bytes) where
  unsubscribe_each-deletes :
      (answers : (port handle : ℕ) (s : S)
        → (response : Bytes) × (s' : S) × (send (delete_request port handle) s ≡ (ok response, s')))
      (subs : List (ℕ × ActiveSubscription C)) (session : Session S C)
      → IsKeyed subs
      → ((unsubscribe_each send subs session).0 ≡ ok tt)
        × ((unsubscribe_each send subs session).1.subscriptions
            ≡ delete_each subs session.subscriptions)
  unfolding unsubscribe_each unsubscribe
  unsubscribe_each-deletes answers [] session h = (refl, refl)
  unsubscribe_each-deletes answers ((key, sub) ∷ subs) session h =
      let (response, s', e) = answers sub.port sub.handle session.device in
      let after : Session S C = record {
        device = s';
        subscriptions = delete_key sub.handle session.subscriptions;
      } in
      let (fine, emptied) = unsubscribe_each-deletes answers subs after h.1 in
      rw e (fine, emptied ∙ ap (λ k. delete_each subs (delete_key k session.subscriptions)) h.0)

  -- Where each subscription stands under its own handle, and `send` of every request to end a
  -- notification gets some response, all of them are ended: the call succeeds, and the table is
  -- empty.
  pub unsubscribe_all-empties :
      (answers : (port handle : ℕ) (s : S)
        → (response : Bytes) × (s' : S) × (send (delete_request port handle) s ≡ (ok response, s')))
      (session : Session S C)
      → IsKeyed session.subscriptions
      → ((unsubscribe_all send session).0 ≡ ok tt)
        × ((unsubscribe_all send session).1.subscriptions ≡ [])
  unfolding unsubscribe_all
  unsubscribe_all-empties answers session h =
      let (fine, emptied) = unsubscribe_each-deletes answers session.subscriptions session h in
      (
        fine,
        emptied
            ∙ delete_each-nil session.subscriptions session.subscriptions
                (own_keys session.subscriptions),
      )
