-- ===== src/Store/Gcs/Tests.antt =====
-- The adapter's theorems at clients that keep its objects in memory. Times are numbers.
use mathlib.Core.Option as Option
use maestro_cms.Prelude.{
  ℕ, ◌≡◌, refl, ap, inl, false, Option, none, some, List, [], ◌∷◌, Option-cases, inr, arith, leb,
  if◌then◌else◌, length, slice,
}
use maestro_cms.Prelude.Int.{ℤ}
use maestro_cms.Text.{Bytes, codes, bytes_eq}
use maestro_cms.Store.Defs.{Result, ok, err, read_failed}
use maestro_cms.Store.Memory.{Objects, object_at, remove_key, set_key, range_end}
use maestro_cms.Store.Memory as Memory
use maestro_cms.Store.Gcs.{SdkError, SdkResult, sdk_ok, sdk_err, Client, get, exists}
use maestro_cms.Store.Gcs.Sessions.{
  Call, put_call, delete_call, IsAmong, GetFits, ExistsFits, IsFaithful, session, session_lem,
}
use maestro_cms.Store.Memory.Keys.{
  object_at-remove_key, object_at-remove_key_other, object_at-set_key, object_at-set_key_other,
}
use maestro_cms.Store.Gcs.Refine.{not_exist, out_of_range}

abbrev failed : SdkError
failed = record { is_not_exist = false; code = none }

abbrev contents : Bytes → Objects ℕ → Option Bytes
contents k s = Option.map (λ o. o.data_bytes) (object_at ℕ k s)

abbrev read_with : (Bytes → SdkResult Bytes) → Option Bytes → SdkResult Bytes
read_with f none = sdk_err not_exist
read_with f (some b) = f b

abbrev range_from : ℕ → ℤ → Option Bytes → SdkResult (Bytes × ℕ)
range_from offset wanted none = sdk_err not_exist
range_from offset wanted (some b) =
    if leb (length b) offset
    then sdk_err out_of_range
    else sdk_ok (slice b offset (range_end (length b) offset wanted), length b)

abbrev copy_to : Bytes × Option Bytes → Result Bytes → Option SdkError × (Bytes × Option Bytes)
copy_to u (ok b) = (none, (u.0, some b))
copy_to u (err e) = (some failed, u)

abbrev close_to : Bytes × Option Bytes → Objects ℕ → Option SdkError × Objects ℕ
close_to (k, none) s = (some failed, s)
close_to (k, some b) s = (none, set_key ℕ k (record { data_bytes = b; created = 0 }) s)

abbrev delete_from : Bytes → Option Bytes → Objects ℕ → Option SdkError × Objects ℕ
delete_from k none s = (some not_exist, s)
delete_from k (some b) s = (none, remove_key ℕ k s)

abbrev missing_from : Option Bytes → Option SdkError
missing_from none = some not_exist
missing_from (some b) = none

abbrev memory_client : Client ℕ
memory_client = record {
  State = Objects ℕ;
  Upload = Bytes × Option Bytes;
  new_reader = λ k s. read_with (λ b. sdk_ok b) (contents k s);
  new_range_reader = λ k offset wanted s. range_from offset wanted (contents k s);
  new_writer = λ k. (k, none);
  copy = copy_to;
  cancel = λ u. (u.0, none);
  close_upload = close_to;
  delete_object = λ k s. delete_from k (contents k s) s;
  attrs = λ k s. missing_from (contents k s);
  run_composer = λ dst srcs content_type s. (none, s);
  objects = λ prefix s. ([], none);
  close_client = λ s. (none, s);
}

-- A client whose uploads to the key "full" end in an error, with the object stored for all that.
abbrev uncertain : Bytes → Option SdkError × Objects ℕ → Option SdkError × Objects ℕ
uncertain k (e, s) = ((if bytes_eq k (codes "full") then some failed else e), s)

abbrev close_full : Bytes × Option Bytes → Objects ℕ → Option SdkError × Objects ℕ
close_full u s = uncertain u.0 (close_to u s)

abbrev failing_client : Client ℕ
failing_client = record memory_client { close_upload = close_full }

stored :
    (k b : Bytes) (s : Objects ℕ)
    → contents k (set_key ℕ k (record { data_bytes = b; created = 0 }) s) ≡ some b
stored k b s = ap (Option.map (λ o. o.data_bytes)) (object_at-set_key ℕ k _ s)

failing_client-IsFaithful : IsFaithful ℕ failing_client contents
failing_client-IsFaithful = record {
  reads = λ k b s h. elim (Option-cases (contents k s)) [
    | inl missing ↦ absurd (ground (arith, missing, h))
    | inr (c, found) ↦ ground (arith, found, h)
  ];
  reads_missing = λ k e s h absent. elim (Option-cases (contents k s)) [
    | inl missing ↦ missing
    | inr (c, found) ↦ absurd (ground (arith, found, h))
  ];
  attrs_there = λ k s h. elim (Option-cases (contents k s)) [
    | inl missing ↦ absurd (ground (arith, missing, h))
    | inr (b, found) ↦ (b, found)
  ];
  attrs_missing = λ k e s h absent. elim (Option-cases (contents k s)) [
    | inl missing ↦ missing
    | inr (b, found) ↦ absurd (ground (arith, found, h))
  ];
  copy_breaks = λ u source. (failed, refl);
  cancels = λ u k s. refl;
  commits = λ k b s h. (
    (λ e. stored k b s),
    inl (stored k b s),
    λ other ne. ap (Option.map (λ o. o.data_bytes)) (object_at-set_key_other ℕ k other _ s ne),
  );
  deletes = λ k s. elim (Option-cases (contents k s)) [
    | inl missing ↦
        rw missing ((λ e. cc), (λ e is absent. missing), inl missing, (λ other ne. refl))
    | inr (b, found) ↦
        let gone : contents k (remove_key ℕ k s) ≡ none =
          ap (Option.map (λ o. o.data_bytes)) (object_at-remove_key ℕ k s) in
        rw found (
          (λ e. gone),
          (λ e is absent. gone),
          inl gone,
          λ other ne.
              ap (Option.map (λ o. o.data_bytes)) (object_at-remove_key_other ℕ k other s ne),
        )
  ];
}

abbrev bucket : Objects ℕ
bucket = (codes "b/1", record { data_bytes = codes "hello"; created = 1 }) ∷ []

nothing_full : contents (codes "full") bucket ≡ none
unfolding object_at bytes_eq
nothing_full = refl

-- A put that fails and is stored for all that, one whose source breaks off, one of another key, and a delete of another key.
abbrev calls : List Call
calls =
    put_call (codes "full") (ok (codes "one"))
    ∷ put_call (codes "full") (err read_failed)
    ∷ put_call (codes "b/1") (ok (codes "two"))
    ∷ delete_call (codes "b/2")
    ∷ []

session_lem_example :
    (let last = session ℕ failing_client (codes "full") calls bucket (none ∷ []) in
      IsAmong (contents (codes "full") last.0) last.1
      × GetFits last.1 (get ℕ failing_client (codes "full") last.0)
      × ExistsFits last.1 (exists ℕ failing_client (codes "full") last.0))
session_lem_example =
    session_lem ℕ failing_client contents failing_client-IsFaithful (codes "full") calls bucket
      (none ∷ []) (inl nothing_full)
