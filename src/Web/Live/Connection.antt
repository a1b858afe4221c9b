-- ===== src/Web/Live/Connection.antt =====
-- useLiveTelemetry.ts: when the connection counts as live, and when listeners are called.
use helio.Prelude.{
  Bool, true, false, Option, ◌≡◌, refl, ◌↔◌, arith, Bool-cases, inl, inr, not, ◌&&◌, ◌||◌,
  if◌then◌else◌, ◌+◌,
}
use helio.Js.Text.{text_eq, text_eq_refl, text_eq_sound}
use helio.Js.Json.{Json}
use helio.Js.Host.{Host}
use helio.Web.Live.{StreamState, connecting, connected, reconnecting}
use helio.Web.Live.Status.{
  ConnectionState, live, loading, offline, retrying, outdated, unavailable, Inputs,
  connection_state, last_success_at, is_old, has_snapshot, is_stale, is_connecting, is_reconnecting,
  SharedStatus, publish_status, announcement, same_state,
}

-- The connection is shown as live exactly when the browser is online, the query is settled and has
-- a snapshot or no error, the stream is connected, and the data are neither marked stale nor, by the
-- time of the last success, older than thirty seconds.
pub connection_state-live_iff :
    (h : Host) (i : Inputs)
    → (connection_state h i ≡ live) ↔ (
        ((i.is_offline ≡ false) × (i.is_pending ≡ false))
        × (((i.is_error && not (has_snapshot i.shown)) ≡ false)
            × ((i.stream ≡ connected)
                × ((is_stale i.shown ≡ false)
                    × (is_old i.clock (last_success_at h i.shown) ≡ false)))))
unfolding connection_state
connection_state-live_iff h i =
    decided i.stream i.is_offline i.is_error i.is_pending (has_snapshot i.shown) (is_stale i.shown)
      (is_old i.clock (last_success_at h i.shown))
  where
    decided :
        (stream : StreamState) (off error_ pending has stale old : Bool)
        → ((if off
              then offline
              else if not has && error_
              then unavailable
              else if pending || is_connecting stream
              then loading
              else if is_reconnecting stream
              then retrying
              else if stale || old
              then outdated
              else live)
            ≡ live)
          ↔ (((off ≡ false) × (pending ≡ false))
              × (((error_ && not has) ≡ false)
                  × ((stream ≡ connected) × ((stale ≡ false) × (old ≡ false)))))
    decided connecting off error_ pending has stale old = (λ e. ground arith, λ e. cc)
    decided reconnecting off error_ pending has stale old = (λ e. ground arith, λ e. cc)
    decided connected off error_ pending has stale old = (λ e. ground arith, λ e. ground arith)

same_state_sound : (a b : ConnectionState) → same_state a b ≡ true → a ≡ b
unfolding same_state
same_state_sound a b h = ground arith

same_state_refl : (a : ConnectionState) → same_state a a ≡ true
unfolding same_state
same_state_refl a = ground arith

-- The status that `publishStatus` would announce is the one that stands.
abbrev pub is_shown : Host → ConnectionState → Option Json → SharedStatus → Bool
is_shown h c v s = same_state s.connection c && text_eq s.text (announcement h c v)

publish_status-same :
    (h : Host) (c : ConnectionState) (v : Option Json) (s : SharedStatus)
    → is_shown h c v s ≡ true
    → publish_status h c v s ≡ s
unfolding publish_status
publish_status-same h c v s e = simp e refl

publish_status-other :
    (h : Host) (c : ConnectionState) (v : Option Json) (s : SharedStatus)
    → is_shown h c v s ≡ false
    → publish_status h c v s
      ≡ record { text = announcement h c v; connection = c; calls = s.calls + 1 }
unfolding publish_status
publish_status-other h c v s e = simp e refl

-- What `publishStatus` announces is shown.
publish_status-is_shown :
    (h : Host) (c : ConnectionState) (v : Option Json) (s : SharedStatus)
    → is_shown h c v (publish_status h c v s) ≡ true
publish_status-is_shown h c v s = elim (Bool-cases (is_shown h c v s)) [
  | inl e ↦ rw (publish_status-same h c v s e) e
  | inr e ↦
      rw (publish_status-other h c v s e, same_state_refl c, text_eq_refl (announcement h c v)) refl
]

-- `publishStatus` leaves the shared status equal to the given one, and calls the listeners once,
-- exactly if another status was shared before: publishing the same again calls nobody.
pub publish_status_lem :
    (h : Host) (c : ConnectionState) (v : Option Json) (s : SharedStatus)
    → ((publish_status h c v s).connection ≡ c)
      × (((publish_status h c v s).text ≡ announcement h c v)
          × ((publish_status h c v (publish_status h c v s) ≡ publish_status h c v s)
              × ((publish_status h c v s).calls
                  ≡ (if is_shown h c v s then s.calls else s.calls + 1))))
publish_status_lem h c v s = (
  same_state_sound (publish_status h c v s).connection c
      (ground (arith, publish_status-is_shown h c v s)),
  (
    text_eq_sound (publish_status h c v s).text (announcement h c v)
        (ground (arith, publish_status-is_shown h c v s)),
    (
      publish_status-same h c v (publish_status h c v s) (publish_status-is_shown h c v s),
      elim (Bool-cases (is_shown h c v s)) [
        | inl e ↦ rw (publish_status-same h c v s e, e) refl
        | inr e ↦ rw (publish_status-other h c v s e, e) refl
      ],
    ),
  ),
)
