-- ===== src/Relay/Client/Batches.antt =====
-- alexa-client.js: the requests that an action sends, one rule for each way to build an action.
use helio.Prelude.{
  if◌then◌else◌, length-append, All-append, append_assoc, sym, ap, ◌∙◌, ℕ, ◌+◌, ◌≤◌, ◌≡◌, refl,
  Bool, true, false, Option, none, some, List, [], ◌++◌, arith, All, length,
}
use helio.Relay.Client.{
  lift, ◌>>=◌, FetchRequest, token_request, put_object, Client, Answer, done, failed, continue,
  Failure,
}
use helio.Js.Text.{Text}
use helio.Js.Json.{Json}
use helio.Js.Host.{Host}
use helio.Relay.Client.Widget.{display_snapshot}

-- A request for a command names at most twenty devices, at least one, and carries the display of the
-- snapshot.
abbrev pub IsBatch : Host → Text → Json → FetchRequest → Type 0
IsBatch h timezone snapshot token_request = Unit
IsBatch h timezone snapshot (put_object token display devices) =
    (display_snapshot h timezone snapshot ≡ some display)
    × (length devices ≤ 20)
    × (1 ≤ length devices)

module _ {W : Type 0} (P : FetchRequest → Type 0) where
  -- From `c` to `d` at most `n` requests were sent, all of which satisfy `P`.
  pub record Adds (n : ℕ) (c d : Client W) : Type 0 where
    pub new : List FetchRequest
    pub added : d.sent ≡ new ++ c.sent
    pub good : All P new
    pub bounded : length new ≤ n

  pub Adds-refl : (n : ℕ) (c d : Client W) → d.sent ≡ c.sent → Adds n c d
  Adds-refl n c d e = record { new = []; added = e; good = tt; bounded = omega arith }

  pub Adds-trans : (n k : ℕ) (c d e : Client W) → Adds n c d → Adds k d e → Adds (n + k) c e
  Adds-trans n k c d e x y = record {
    new = y.new ++ x.new;
    added =
        y.added
        ∙ ap (λ (l : List FetchRequest). y.new ++ l) x.added
        ∙ sym (append_assoc y.new x.new c.sent);
    good = All-append P y.new x.new y.good x.good;
    bounded = omega (arith, length-append y.new x.new, x.bounded, y.bounded);
  }

  abbrev pub Sends : {A : Type 0} → ℕ → (Client W → Answer A × Client W) → Type 0
  Sends n m = (c : Client W) → Adds n c (m c).1

  pub continue-Sends :
      {A B : Type 0} (k : ℕ) (r : Answer A) (f : A → Client W → Answer B × Client W)
      → ((a : A) → Sends k (f a))
      → Sends k (continue r f)
  continue-Sends k (done a) f h c = h a c
  continue-Sends k (failed e) f h c = Adds-refl k c c refl

  pub bind-Sends :
      {A B : Type 0} (n k : ℕ) (m : Client W → Answer A × Client W)
      (f : A → Client W → Answer B × Client W)
      → Sends n m
      → ((a : A) → Sends k (f a))
      → Sends (n + k) (m >>= f)
  bind-Sends n k m f x y c = Adds-trans n k c (m c).1 _ (x c) (continue-Sends k (m c).0 f y (m c).1)

  pub lift-Sends : {A : Type 0} (n : ℕ) (o : Option A) (e : Failure) → Sends n (lift o e)
  lift-Sends n none e c = Adds-refl n c c refl
  lift-Sends n (some a) e c = Adds-refl n c c refl

  pub if-Sends :
      {A : Type 0} (n : ℕ) (b : Bool) (m k : Client W → Answer A × Client W)
      → Sends n m
      → Sends n k
      → Sends n (if b then m else k)
  if-Sends n true m k x y = x
  if-Sends n false m k x y = y
