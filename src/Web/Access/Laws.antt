-- ===== src/Web/Access/Laws.antt =====
-- auth-gate.ts: what a visitor gets to see, and where redirects lead.
use helio.Prelude.{
  ◌++◌, ◌∷◌, suc, zero, ap, sym, ◌↔◌, ℕ, Bool, true, false, Option, none, some, ◌≡◌, ◌≢◌, ◌⊎◌, inl,
  inr, refl, arith, Bool-cases, [],
}
use helio.Js.Text.{starts_with, Text, text_eq, codes, text_eq_refl, text_eq_sound}
use helio.Web.Browser.{Browser, Url}
use helio.Web.Access.{
  render, redirect, resolve_app_access, home_path, login_path, bootstrap_path, safe_redirect_target,
  safe_destination, decode_passes, leaves_origin, is_entry, relative,
}

-- Once the session is known, a path is rendered at once, or it redirects to a path that is: no
-- visitor is sent round in circles.
pub resolve_app_access-settles :
    (path : Text) (bootstrap_open signed_in : Bool)
    → (resolve_app_access path bootstrap_open (some signed_in) ≡ render)
      ⊎ ((target : Text) × ((resolve_app_access path bootstrap_open (some signed_in)
              ≡ redirect target)
            × (resolve_app_access target bootstrap_open (some signed_in) ≡ render)))
unfolding resolve_app_access text_eq
resolve_app_access-settles path true signed_in = elim (Bool-cases (text_eq path bootstrap_path)) [
  | inl e ↦ inl (simp e refl)
  | inr e ↦ inr (bootstrap_path, (simp e refl, refl))
]
resolve_app_access-settles path false signed_in = elim (Bool-cases (text_eq path bootstrap_path)) [
  | inl e ↦ elim (Bool-cases signed_in) [
    | inl y ↦ inr (home_path, (simp (e, y) refl, simp y refl))
    | inr y ↦ inr (login_path, (simp (e, y) refl, refl))
  ]
  | inr e ↦ elim (Bool-cases (text_eq path login_path)) [
    | inl l ↦ inl (simp (e, l) refl)
    | inr l ↦ elim (Bool-cases signed_in) [
      | inl y ↦ inl (simp (e, l, y) refl)
      | inr y ↦ inr (login_path, (simp (e, l, y) refl, refl))
    ]
  ]
]

text-cases : (a b : Text) → ((text_eq a b ≡ true) × (a ≡ b)) ⊎ ((text_eq a b ≡ false) × (a ≢ b))
text-cases a b = elim (Bool-cases (text_eq a b)) [
  | inl e ↦ inl (e, text_eq_sound a b e)
  | inr e ↦ inr (e, λ p. absurd (ground (arith, text_eq_refl a, sym (ap (text_eq a) p))))
]

-- A path is rendered exactly in these cases: the set-up page while the set-up is open, and once it
-- is closed the login page, or any page but the set-up for a session that is known to be signed in.
pub resolve_app_access-render_iff :
    (path : Text) (bootstrap_open : Bool) (session : Option Bool)
    → (resolve_app_access path bootstrap_open session ≡ render) ↔ (
        ((bootstrap_open ≡ true) × (path ≡ bootstrap_path))
        ⊎ ((bootstrap_open ≡ false)
            × ((path ≢ bootstrap_path) × ((path ≡ login_path) ⊎ (session ≡ some true)))))
unfolding resolve_app_access
resolve_app_access-render_iff path bootstrap_open session = elim (text-cases path bootstrap_path) [
  | inl (e, p) ↦ (λ h. ground arith, λ h. ground arith)
  | inr (e, p) ↦ elim (text-cases path login_path) [
    | inl (l, q) ↦ (λ h. ground arith, λ h. ground arith)
    | inr (l, q) ↦ (λ h. ground arith, λ h. ground arith)
  ]
]

-- What the browser documents of URLs: what follows the path, the query or the fragment, starts with
-- neither kind of slash; decoding leaves the slashes at the start of a text as they are.
pub record IsStandard (b : Browser) : Type 0 where
  pub suffix :
      (t : Text) (u : Url)
      → b.parse_url t ≡ some u
      → (starts_with (codes "/") (u.search ++ u.hash) ≡ false)
        × (starts_with (92 ∷ []) (u.search ++ u.hash) ≡ false)
  pub keeps :
      (t d : Text) → b.decode_component t ≡ some d → leaves_origin t ≡ true → leaves_origin d ≡ true

decode_passes-leaves_origin :
    (b : Browser)
    → IsStandard b
    → (n : ℕ) (t : Text) → leaves_origin t ≡ true
    → leaves_origin (decode_passes b n t) ≡ true
unfolding decode_passes
decode_passes-leaves_origin b v zero t h = h
decode_passes-leaves_origin b v (suc n) t h =
    after (decode_passes-leaves_origin b v n) (b.decode_component t) refl
  where
    after :
        ((d : Text) → leaves_origin d ≡ true → leaves_origin (decode_passes b n d) ≡ true)
        → (o : Option Text) → b.decode_component t ≡ o
        → leaves_origin (elim o [ none ↦ t | some d ↦ decode_passes b n d ]) ≡ true
    after keep none e = h
    after keep (some d) e = keep d (v.keeps t d e h)

leaves_origin-append :
    (path rest : Text)
    → starts_with (codes "/") rest ≡ false
    → starts_with (92 ∷ []) rest ≡ false
    → leaves_origin path ≡ false
    → leaves_origin (path ++ rest) ≡ false
unfolding leaves_origin starts_with
leaves_origin-append [] [] s t h = h
leaves_origin-append [] (d ∷ rest) s t h = ground arith
leaves_origin-append (c ∷ []) [] s t h = ground arith
leaves_origin-append (c ∷ []) (d ∷ rest) s t h = ground arith
leaves_origin-append (c ∷ d ∷ path) rest s t h = h

-- Where `safeRedirectTarget` may lead.
abbrev IsSafe : Browser → Text → Text → Type 0
IsSafe b t target =
    (target ≡ home_path)
    ⊎ ((u : Url) × ((b.parse_url t ≡ some u)
          × (target ≡ relative u)
          × ((u.url_origin ≡ b.origin)
              × ((is_entry u.pathname ≡ false) × (leaves_origin target ≡ false)))))

-- A path that still leaves the origin would have been seen after decoding.
leaves_origin-pathname :
    (b : Browser) (path : Text)
    → IsStandard b
    → leaves_origin (decode_passes b 2 path) ≡ false
    → leaves_origin path ≡ false
leaves_origin-pathname b path v l = elim (Bool-cases (leaves_origin path)) [
  | inl h ↦ ground (arith, decode_passes-leaves_origin b v 2 path h)
  | inr h ↦ h
]

leaves_origin-relative :
    (b : Browser) (t : Text) (u : Url)
    → IsStandard b
    → b.parse_url t ≡ some u
    → leaves_origin (decode_passes b 2 u.pathname) ≡ false
    → leaves_origin (relative u) ≡ false
leaves_origin-relative b t u v e l =
    leaves_origin-append u.pathname (u.search ++ u.hash) ((v.suffix t u e).0) ((v.suffix t u e).1)
      (leaves_origin-pathname b u.pathname v l)

safe_destination-IsSafe :
    (b : Browser) (t : Text) (u : Url)
    → IsStandard b
    → b.parse_url t ≡ some u
    → IsSafe b t (safe_destination b u)
unfolding safe_destination
safe_destination-IsSafe b t u v e = elim (Bool-cases (text_eq u.url_origin b.origin)) [
  | inr o ↦ inl (simp o refl)
  | inl o ↦ elim (Bool-cases (leaves_origin (decode_passes b 2 u.pathname))) [
    | inl l ↦ inl (simp (o, l) refl)
    | inr l ↦ elim (Bool-cases (is_entry u.pathname)) [
      | inl y ↦ inl (simp (o, l, y) refl)
      | inr y ↦ inr (
        u,
        (
          e,
          simp (o, l, y) refl,
          (
            text_eq_sound u.url_origin b.origin o,
            (y, simp (o, l, y) (leaves_origin-relative b t u v e l)),
          ),
        ),
      )
    ]
  ]
]

-- Whatever a link asks for, the redirect after a login leads to the home page, or the link is a text that
-- the browser reads as a URL on the application's own origin whose page is neither the login nor the
-- set-up: then the redirect is that URL's path, query and fragment, and it never starts with two slashes (or a slash and a backslash), which
-- would name another host. (The browser's URLs are as it documents them.)
pub safe_redirect_target_lem :
    (b : Browser) (candidate : Option Text)
    → IsStandard b
    → (safe_redirect_target b candidate ≡ home_path)
      ⊎ ((t : Text) × (candidate ≡ some t)
          × ((u : Url) × ((b.parse_url t ≡ some u)
                × (safe_redirect_target b candidate ≡ relative u)
                × ((u.url_origin ≡ b.origin)
                    × ((is_entry u.pathname ≡ false)
                        × (leaves_origin (safe_redirect_target b candidate) ≡ false))))))
unfolding safe_redirect_target
safe_redirect_target_lem b none v = inl refl
safe_redirect_target_lem b (some []) v = inl refl
safe_redirect_target_lem b (some (c ∷ t)) v = elim (parsed (b.parse_url (c ∷ t)) refl) [
  | inl home ↦ inl home
  | inr safe ↦ inr (c ∷ t, refl, safe)
]
  where
    parsed :
        (o : Option Url)
        → b.parse_url (c ∷ t) ≡ o
        → IsSafe b (c ∷ t) (elim o [ none ↦ home_path | some u ↦ safe_destination b u ])
    parsed none e = inl refl
    parsed (some u) e = safe_destination-IsSafe b (c ∷ t) u v e
