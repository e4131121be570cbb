-- ===== src/Store/Gcs/Sessions.antt =====
-- What a caller of the adapter knows of an object after a sequence of calls, where every call of the
-- service may fail.
use maestro_cms.Prelude.{
  ◌≡◌, ◌≢◌, refl, ap, sym, ◌∙◌, subst, ◌⊎◌, inl, inr, Bool, true, false, Option, none, some, List,
  [], ◌∷◌, if◌then◌else◌, Bool-cases, Option-cases,
}
use maestro_cms.Text.{Bytes, bytes_eq}
use maestro_cms.Text.Equal.{bytes_eq→eq, bytes_eq_refl}
use maestro_cms.Store.Defs.{
  StoreError, object_not_found, range_not_satisfiable, negative_offset, source_count, read_failed,
  backend_failed, Result, ok, err,
}
use maestro_cms.Store.Gcs.{
  SdkError, SdkResult, sdk_ok, sdk_err, Client, missing_or_failed, get, put, delete, exists,
}

-- A call that changes the bucket: a `Put` of what a reader yields, or a `Delete`.
pub data Call : Type 0 where
  put_call : Bytes → Result Bytes → Call
  delete_call : Bytes → Call

-- What the object at a key may be: `none` for no object.
abbrev pub Known : Type 0
Known = List (Option Bytes)

abbrev pub IsAmong : Option Bytes → Known → Type 0
IsAmong c [] = ⊥
IsAmong c (x ∷ known) = (c ≡ x) ⊎ IsAmong c known

-- What a `Delete` of the key says of its object.
abbrev pub deleted : Option StoreError → Known → Known
deleted none known = none ∷ []
deleted (some object_not_found) known = none ∷ []
deleted (some range_not_satisfiable) known = none ∷ known
deleted (some (negative_offset n)) known = none ∷ known
deleted (some (source_count n)) known = none ∷ known
deleted (some read_failed) known = none ∷ known
deleted (some backend_failed) known = none ∷ known

-- What a `Put` to the key says of its object. A source that broke off leaves the object as it was, and
-- its `Put` never succeeds.
abbrev pub replaced : Result Bytes → Option StoreError → Known → Known
replaced (ok b) none known = some b ∷ []
replaced (ok b) (some e) known = some b ∷ known
replaced (err source) none known = []
replaced (err source) (some e) known = known

-- What the caller knows of `key` behind a call with its error.
abbrev pub learned : Bytes → Call → Option StoreError → Known → Known
learned key (put_call k r) e known = if bytes_eq k key then replaced r e known else known
learned key (delete_call k) e known = if bytes_eq k key then deleted e known else known

-- What `Get` says.
abbrev pub GetFits : Known → Result Bytes → Type 0
GetFits known (ok b) = IsAmong (some b) known
GetFits known (err object_not_found) = IsAmong none known
GetFits known (err range_not_satisfiable) = Unit
GetFits known (err (negative_offset n)) = Unit
GetFits known (err (source_count n)) = Unit
GetFits known (err read_failed) = Unit
GetFits known (err backend_failed) = Unit

-- What `Exists` says.
abbrev pub ExistsFits : Known → Result Bool → Type 0
ExistsFits known (ok true) = (b : Bytes) × IsAmong (some b) known
ExistsFits known (ok false) = IsAmong none known
ExistsFits known (err e) = Unit

module _ {State : Type 0} (contents : Bytes → State → Option Bytes) where
  -- The object at a key behind a call is the new one or the old one.
  abbrev pub Either : Bytes → Option Bytes → State → State → Type 0
  Either key new s s' = (contents key s' ≡ new) ⊎ (contents key s' ≡ contents key s)

  abbrev pub SameOthers : Bytes → State → State → Type 0
  SameOthers key s s' = (other : Bytes) → key ≢ other → contents other s' ≡ contents other s

-- What the SDK documents of its calls, each of which may also fail for another reason: `contents` is the
-- bucket's objects. A call that fails may have taken effect.
pub record IsFaithful (Time : Type 0) (client : Client Time)
    (contents : Bytes → client.State → Option Bytes) : Type 0 where
  pub reads :
      (k b : Bytes) (s : client.State) → client.new_reader k s ≡ sdk_ok b → contents k s ≡ some b
  pub reads_missing :
      (k : Bytes) (e : SdkError) (s : client.State)
      → client.new_reader k s ≡ sdk_err e
      → e.is_not_exist ≡ true
      → contents k s ≡ none
  pub attrs_there :
      (k : Bytes) (s : client.State)
      → client.attrs k s ≡ none
      → (b : Bytes) × (contents k s ≡ some b)
  pub attrs_missing :
      (k : Bytes) (e : SdkError) (s : client.State)
      → client.attrs k s ≡ some e
      → e.is_not_exist ≡ true
      → contents k s ≡ none
  pub copy_breaks :
      (u : client.Upload) (source : StoreError)
      → (e : SdkError) × ((client.copy u (err source)).0 ≡ some e)
  pub cancels :
      (u : client.Upload) (k : Bytes) (s : client.State)
      → contents k (client.close_upload (client.cancel u) s).1 ≡ contents k s
  pub commits :
      (k b : Bytes) (s : client.State)
      → (client.copy (client.new_writer k) (ok b)).0 ≡ none
      → let closed = client.close_upload (client.copy (client.new_writer k) (ok b)).1 s in
        (closed.0 ≡ none → contents k closed.1 ≡ some b)
        × Either contents k (some b) s closed.1
        × SameOthers contents k s closed.1
  pub deletes :
      (k : Bytes) (s : client.State)
      → let called = client.delete_object k s in
        (called.0 ≡ none → contents k called.1 ≡ none)
        × ((e : SdkError) → called.0 ≡ some e → e.is_not_exist ≡ true → contents k called.1 ≡ none)
        × Either contents k none s called.1
        × SameOthers contents k s called.1

SdkResult-cases :
    {A : Type 0} (r : SdkResult A) → ((a : A) × (r ≡ sdk_ok a)) ⊎ ((e : SdkError) × (r ≡ sdk_err e))
SdkResult-cases (sdk_ok a) = inl (a, refl)
SdkResult-cases (sdk_err e) = inr (e, refl)

module _ (Time : Type 0) (client : Client Time) where
  open client use {State}

  abbrev pub perform : Call → State → Option StoreError × State
  perform (put_call k r) s = put Time client k r s
  perform (delete_call k) s = delete Time client k s

  -- The calls one after the other, with what the caller knows of the key.
  abbrev pub session : Bytes → List Call → State → Known → State × Known
  session key [] s known = (s, known)
  session key (call ∷ calls) s known =
      let (e, s') = perform call s in session key calls s' (learned key call e known)

  module _ (contents : Bytes → State → Option Bytes)
      (faithful : IsFaithful Time client contents) where
    possible_after_failure :
        (key : Bytes) (new : Option Bytes) (s s' : State) (known : Known)
        → Either contents key new s s'
        → IsAmong (contents key s) known
        → (contents key s' ≡ new) ⊎ IsAmong (contents key s') known
    possible_after_failure key new s s' known (inl e) h = inl e
    possible_after_failure key new s s' known (inr same) h =
        inr (subst (λ c. IsAmong c known) (sym same) h)

    same-IsAmong :
        (key : Bytes) (s s' : State) (known : Known)
        → contents key s' ≡ contents key s
        → IsAmong (contents key s) known
        → IsAmong (contents key s') known
    same-IsAmong key s s' known same h = subst (λ c. IsAmong c known) (sym same) h

    -- A call at the key itself, and at another key.
    put_same :
        (key : Bytes) (r : Result Bytes) (s : State) (known : Known)
        → IsAmong (contents key s) known
        → (let answer = put Time client key r s in
            IsAmong (contents key answer.1) (replaced r answer.0 known))
    unfolding put
    put_same key (err source) s known h =
        let u = client.new_writer key in
        let (e, broke) = faithful.copy_breaks u source in
        rw (broke, put)
          (same-IsAmong key s _ known (faithful.cancels (client.copy u (err source)).1 key s) h)
    put_same key (ok b) s known h =
        let u = client.copy (client.new_writer key) (ok b) in
        elim (Option-cases u.0) [
          | inr (e, fails) ↦
              rw (fails, put) (inr (same-IsAmong key s _ known (faithful.cancels u.1 key s) h))
          | inl copied ↦
              let (commits, either, others) = faithful.commits key b s copied in
              elim (Option-cases (client.close_upload u.1 s).0) [
                | inl closed ↦ rw (copied, closed, put) (inl (commits closed))
                | inr (e, fails) ↦
                    rw (copied, fails, put) (possible_after_failure key (some b) s _ known either h)
              ]
        ]

    put_other :
        (k key : Bytes) (r : Result Bytes) (s : State)
        → k ≢ key
        → contents key (put Time client k r s).1 ≡ contents key s
    unfolding put
    put_other k key (err source) s ne =
        let u = client.new_writer k in
        let (e, broke) = faithful.copy_breaks u source in
        rw (broke, put) (faithful.cancels (client.copy u (err source)).1 key s)
    put_other k key (ok b) s ne =
        let u = client.copy (client.new_writer k) (ok b) in
        elim (Option-cases u.0) [
          | inr (e, fails) ↦ rw (fails, put) (faithful.cancels u.1 key s)
          | inl copied ↦
              let (commits, either, others) = faithful.commits k b s copied in
              elim (Option-cases (client.close_upload u.1 s).0) [
                | inl closed ↦ rw (copied, closed, put) (others key ne)
                | inr (e, fails) ↦ rw (copied, fails, put) (others key ne)
              ]
        ]

    delete_same :
        (key : Bytes) (s : State) (known : Known)
        → IsAmong (contents key s) known
        → (let answer = delete Time client key s in
            IsAmong (contents key answer.1) (deleted answer.0 known))
    unfolding delete missing_or_failed
    delete_same key s known h =
        let (gone, missing, either, others) = faithful.deletes key s in
        elim (Option-cases (client.delete_object key s).0) [
          | inl worked ↦ rw (worked, delete) (inl (gone worked))
          | inr (e, fails) ↦ elim (Bool-cases e.is_not_exist) [
            | inl absent ↦ rw (fails, delete, absent) (inl (missing e fails absent))
            | inr other ↦
                rw (fails, delete, other) (possible_after_failure key none s _ known either h)
          ]
        ]

    delete_other :
        (k key : Bytes) (s : State)
        → k ≢ key
        → contents key (delete Time client k s).1 ≡ contents key s
    unfolding delete
    delete_other k key s ne =
        let (gone, missing, either, others) = faithful.deletes k s in
        elim (Option-cases (client.delete_object k s).0) [
          | inl worked ↦ rw (worked, delete) (others key ne)
          | inr (e, fails) ↦ rw (fails, delete) (others key ne)
        ]

    differ : (k key : Bytes) → bytes_eq k key ≡ false → k ≢ key
    differ k key h e =
        let same : bytes_eq k key ≡ true = ap (bytes_eq k) (sym e) ∙ bytes_eq_refl k in cc

    perform-IsAmong :
        (key : Bytes) (call : Call) (s : State) (known : Known)
        → IsAmong (contents key s) known
        → (let answer = perform call s in
            IsAmong (contents key answer.1) (learned key call answer.0 known))
    perform-IsAmong key (put_call k r) s known h = elim (Bool-cases (bytes_eq k key)) [
      | inl same ↦ rw same (
          subst
            (λ c.
              IsAmong (contents key (put Time client c r s).1)
                (replaced r (put Time client c r s).0 known))
            (sym (bytes_eq→eq k key same)) (put_same key r s known h))
      | inr other ↦
          rw other (same-IsAmong key s _ known (put_other k key r s (differ k key other)) h)
    ]
    perform-IsAmong key (delete_call k) s known h = elim (Bool-cases (bytes_eq k key)) [
      | inl same ↦ rw same (
          subst
            (λ c.
              IsAmong (contents key (delete Time client c s).1)
                (deleted (delete Time client c s).0 known))
            (sym (bytes_eq→eq k key same)) (delete_same key s known h))
      | inr other ↦
          rw other (same-IsAmong key s _ known (delete_other k key s (differ k key other)) h)
    ]

    session-IsAmong :
        (key : Bytes) (calls : List Call) (s : State) (known : Known)
        → IsAmong (contents key s) known
        → (let last = session key calls s known in IsAmong (contents key last.0) last.1)
    session-IsAmong key [] s known h = h
    session-IsAmong key (call ∷ calls) s known h =
        session-IsAmong key calls (perform call s).1 (learned key call (perform call s).0 known)
          (perform-IsAmong key call s known h)

    get-GetFits :
        (key : Bytes) (s : State) (known : Known)
        → IsAmong (contents key s) known
        → GetFits known (get Time client key s)
    unfolding get missing_or_failed
    get-GetFits key s known h = elim (SdkResult-cases (client.new_reader key s)) [
      | inl (b, reads) ↦
          rw (reads, get) (subst (λ c. IsAmong c known) (faithful.reads key b s reads) h)
      | inr (e, fails) ↦ elim (Bool-cases e.is_not_exist) [
        | inl absent ↦
            rw (fails, get, absent)
              (subst (λ c. IsAmong c known) (faithful.reads_missing key e s fails absent) h)
        | inr other ↦ rw (fails, get, other) tt
      ]
    ]

    exists-ExistsFits :
        (key : Bytes) (s : State) (known : Known)
        → IsAmong (contents key s) known
        → ExistsFits known (exists Time client key s)
    unfolding exists
    exists-ExistsFits key s known h = elim (Option-cases (client.attrs key s)) [
      | inl there ↦
          let (b, holds) = faithful.attrs_there key s there in
          rw (there, exists) (b, subst (λ c. IsAmong c known) holds h)
      | inr (e, fails) ↦ elim (Bool-cases e.is_not_exist) [
        | inl absent ↦
            rw (fails, exists, absent)
              (subst (λ c. IsAmong c known) (faithful.attrs_missing key e s fails absent) h)
        | inr other ↦ rw (fails, exists, other) tt
      ]
    ]

    -- After any calls of `Put` and `Delete`, of which the service may fail any, the object at a key is
    -- one that the errors of these calls leave possible, and what `Get` and `Exists` then say is true of
    -- such an object: behind a `Put` that succeeded, its bytes; behind a `Delete` that succeeded or that
    -- found no object, none; behind a call with another error, what was possible before it or what the
    -- call was to leave; and a `Put` whose source broke off has an error and changes nothing.
    pub session_lem :
        (key : Bytes) (calls : List Call) (s : State) (known : Known)
        → IsAmong (contents key s) known
        → (let last = session key calls s known in
            IsAmong (contents key last.0) last.1
            × GetFits last.1 (get Time client key last.0)
            × ExistsFits last.1 (exists Time client key last.0))
    session_lem key calls s known h =
        let last = session key calls s known in
        let holds = session-IsAmong key calls s known h in
        (holds, get-GetFits key last.0 last.1 holds, exists-ExistsFits key last.0 last.1 holds)
