-- ===== src/HttpResource/Reports.antt =====
-- How the operations of resource/http.go report what the server answered.
use missinggo.Base.{
  ℕ, ◌≡◌, ◌≢◌, ◌↔◌, refl, ap, ◌∙◌, inl, inr, List, Option, none, some, arith, Option-cases,
}
use missinggo.Base.Decimal.{Text}
use missinggo.HttpResource.{
  Client, Response, Request, request, put_method, delete_method, Err, response_error, checked,
  unless_ok, put, delete,
}

module _ (c : Client) where
  -- Whether the client got an answer with a status.
  abbrev pub Answered : Request → c.Server → ℕ → Type 0
  Answered q w status = (r : Response c.Body) × ((c.send q w).0 ≡ some r) × (r.status ≡ status)

  checked-some :
      (f : Response c.Body → Option Err) (x : Option (Response c.Body) × c.Server)
      (r : Response c.Body)
      → x.0 ≡ some r
      → (checked c f x).0 ≡ f r
  checked-some f (none, w) r h = absurd (ground (arith, h))
  checked-some f (some q, w) r h = ap f (ground (arith, h))

  checked-none :
      (f : Response c.Body → Option Err) (x : Option (Response c.Body) × c.Server)
      → x.0 ≡ none
      → (checked c f x).0 ≡ some Err.client_error
  checked-none f (none, w) h = refl
  checked-none f (some q, w) h = absurd (ground (arith, h))

  -- No error exactly if the answer has a status of 200.
  checked-unless_ok :
      (q : Request) (w : c.Server)
      → ((checked c (unless_ok c) (c.send q w)).0 ≡ none) ↔ Answered q w 200
  checked-unless_ok q w = elim (Option-cases (c.send q w).0) [
    | inl n ↦ (
      λ e. absurd (ground (arith, e, checked-none (unless_ok c) (c.send q w) n)),
      λ a. absurd (ground (arith, n, a.1)),
    )
    | inr (r, p) ↦ (
      λ e. (r, p, ground (arith, e, checked-some (unless_ok c) (c.send q w) r p)),
      λ a. checked-some (unless_ok c) (c.send q w) a.0 a.1 ∙ ground (arith, a.2),
    )
  ]

  always : Response c.Body → Option Err
  always r = some (response_error r)

  always_error : (q : Request) (w : c.Server) → (checked c always (c.send q w)).0 ≢ none
  unfolding always
  always_error q w e = elim (Option-cases (c.send q w).0) [
    | inl n ↦ ground (arith, e, checked-none always (c.send q w) n)
    | inr (r, p) ↦ ground (arith, e, checked-some always (c.send q w) r p)
  ]

  -- `Put` reports no error exactly if the server answered 200. `Delete` reports an error whatever the
  -- server answered: where the answer is 200, for a deletion that succeeded, an error with that status.
  pub put_delete_reports :
      (url : Text) (b : List ℕ) (w : c.Server)
      → ((put c url b w).0 ≡ none ↔ Answered (record (request put_method url) { body = b }) w 200)
        × ((delete c url w).0 ≢ none)
        × (Answered (request delete_method url) w 200
            → (delete c url w).0 ≡ some (Err.status_error 200))
  unfolding put delete response_error always
  put_delete_reports url b w = (
    checked-unless_ok (record (request put_method url) { body = b }) w,
    always_error (request delete_method url) w,
    λ a. checked-some always (c.send (request delete_method url) w) a.0 a.1 ∙ ground (arith, a.2),
  )
