-- ===== src/Client/Exchange/Drains.antt =====
-- The table of requests holds nothing but the requests in flight.
use ads_go.Base.{
  ℕ, ◌≡◌, ◌≢◌, refl, sym, ◌∙◌, List, [], ◌∷◌, ◌++◌, arith, All, All-map, ◌==◌, Bool-cases, inl, inr,
  false, subst,
}
use ads_go.Client.Receive.{Requests}
use ads_go.Client.Exchange.{
  Sender, World, start, remove_invoke_id, next_invoke_id, Step, begin, receive, turn, finish, Reach,
  here, next,
}

-- One of the calls of `send` that have not finished has the id.
data HasId (id : ℕ) : List Sender → Type 0 where
  first : {s : Sender} {senders : List Sender} → s.id ≡ id → HasId id (s ∷ senders)
  later : {s : Sender} {senders : List Sender} → HasId id senders → HasId id (s ∷ senders)

HasId-replace :
    (id : ℕ) (front : List Sender) (s t : Sender) (behind : List Sender)
    → s.id ≡ t.id
    → HasId id (front ++ (s ∷ behind))
    → HasId id (front ++ (t ∷ behind))
HasId-replace id [] s t behind same (first e) = first (sym same ∙ e)
HasId-replace id [] s t behind same (later h) = later h
HasId-replace id (x ∷ front) s t behind same (first e) = first e
HasId-replace id (x ∷ front) s t behind same (later h) =
    later (HasId-replace id front s t behind same h)

HasId-without :
    (id : ℕ) (front : List Sender) (s : Sender) (behind : List Sender)
    → s.id ≢ id
    → HasId id (front ++ (s ∷ behind))
    → HasId id (front ++ behind)
HasId-without id [] s behind other (first e) = absurd (other e)
HasId-without id [] s behind other (later h) = h
HasId-without id (x ∷ front) s behind other (first e) = first e
HasId-without id (x ∷ front) s behind other (later h) =
    later (HasId-without id front s behind other h)

eqb_irrefl : (key : ℕ) → (key == key) ≢ false
eqb_irrefl key e = ground (arith, e)

-- What is left in the table is not the id that was deleted.
All-removed :
    (P : ℕ × ℕ → Type 0) (id : ℕ) (requests : Requests)
    → All P requests
    → All (λ entry. (id ≢ entry.0) × P entry) (remove_invoke_id id requests)
All-removed P id [] h = tt
All-removed P id ((key, channel) ∷ requests) h = elim (Bool-cases (key == id)) [
  | inl same ↦ rw same (All-removed P id requests h.1)
  | inr other ↦ rw other (
    (λ e. eqb_irrefl key (subst (λ k. (key == k) ≡ false) e other), h.0),
    All-removed P id requests h.1,
  )
]

abbrev IsTracked : World → Type 0
IsTracked w = All (λ entry. HasId entry.0 w.senders) w.requests

Step-IsTracked : {v w : World} → Step v w → IsTracked v → IsTracked w
Step-IsTracked (begin w) h = (
  first refl,
  All-map (λ entry kept. later kept.1) _
      (All-removed (λ entry. HasId entry.0 w.senders) (next_invoke_id w) w.requests h),
)
Step-IsTracked (receive w p q) h = h
Step-IsTracked (turn w front s behind phase receiver e t) h =
    All-map
      (λ entry has.
        HasId-replace entry.0 front s (record s { phase = phase }) behind refl
          (subst (HasId entry.0) e has))
      w.requests h
Step-IsTracked (finish w front s behind result e q) h =
    All-map
      (λ entry kept. HasId-without entry.0 front s behind kept.0 (subst (HasId entry.0) e kept.1)) _
      (All-removed (λ entry. HasId entry.0 w.senders) s.id w.requests h)

Reach-IsTracked : {w : World} → Reach start w → IsTracked w
Reach-IsTracked here = tt
Reach-IsTracked (next r step) = Step-IsTracked step (Reach-IsTracked r)

no_entries : (requests : Requests) → All (λ entry. HasId entry.0 []) requests → requests ≡ []
no_entries [] h = refl
no_entries (entry ∷ requests) (h, more) = nobody h
  where
    nobody : {A : Type 0} {id : ℕ} → HasId id [] → A
    nobody has = elim has [ ]

-- However calls of `send` and the receive goroutine interleave: once every call has finished, by an
-- answer, a timeout or an error, the table of requests is empty.
pub requests_drain : (w : World) → Reach start w → w.senders ≡ [] → w.requests ≡ []
requests_drain w reached done = no_entries w.requests (
    subst (λ senders. All (λ entry. HasId entry.0 senders) w.requests) done
      (Reach-IsTracked reached))
