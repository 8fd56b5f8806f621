-- ===== src/Bronze/Open.antt =====
-- The uploads that S3ArtifactSink has open, and what it knows of them up to the commit.
use mathlib.Core.Path.{subst}
use property_tax_data_platfo.Base.{
  ℕ, zero, suc, String, Bool, true, false, not, ◌&&◌, ◌||◌, Option, none, some, List, [], ◌∷◌, ◌≡◌,
  refl, sym, ◌∙◌, ◌⊎◌, inl, inr, ok, err, str_eq, eq_iff, and-true, leb, length, drop,
}
use property_tax_data_platfo.Bronze.Sink.{
  S3Call, create_upload, upload_part, complete_upload, copy_object, copy_part, abort_upload,
  delete_object, Calls, Sink, Setting, SinkReply, noted, with_buffer, taken, then_next, if_full,
  if_more, call_client, flush, flush_while, write_chunk,
}
use property_tax_data_platfo.Bronze.Parts.{write_all, part_call}

-- The call names the upload with this key and id.
abbrev pub names : String → Option String → String → String → Bool
names at none key id = false
names at (some other) key id = str_eq at key && str_eq other id

-- An upload with this id was created at the key, and neither completed nor aborted since.
abbrev pub is_open : String → String → Calls → Bool
is_open key id [] = false
is_open key id ((create_upload at, some new) ∷ calls) =
    names at (some new) key id || is_open key id calls
is_open key id ((complete_upload at upload parts condition, some _) ∷ calls) =
    not (names at upload key id) && is_open key id calls
is_open key id ((abort_upload at upload, some _) ∷ calls) =
    not (names at upload key id) && is_open key id calls
is_open key id (_ ∷ calls) = is_open key id calls

-- A call that opens and closes nothing
abbrev pub IsQuiet : S3Call → Type 0
IsQuiet (create_upload at) = ⊥
IsQuiet (complete_upload at upload parts condition) = ⊥
IsQuiet (abort_upload at upload) = ⊥
IsQuiet _ = Unit

pub or-cases : (a b : Bool) → a || b ≡ true → (a ≡ true) ⊎ (b ≡ true)
or-cases true b e = inl refl
or-cases false b e = inr e

is_open-quiet :
    (key id : String) (call : S3Call) (answer : Option String) (calls : Calls)
    → IsQuiet call
    → is_open key id ((call, answer) ∷ calls) ≡ is_open key id calls
is_open-quiet key id (upload_part at upload number body) answer calls quiet = refl
is_open-quiet key id (copy_object at source condition) answer calls quiet = refl
is_open-quiet key id (copy_part at upload number source first last) answer calls quiet = refl
is_open-quiet key id (delete_object at) answer calls quiet = refl
is_open-quiet key id (create_upload at) answer calls quiet = absurd quiet
is_open-quiet key id (complete_upload at upload parts condition) answer calls quiet = absurd quiet
is_open-quiet key id (abort_upload at upload) answer calls quiet = absurd quiet

pub is_open-failed :
    (key id : String) (call : S3Call) (calls : Calls)
    → is_open key id ((call, none) ∷ calls) ≡ is_open key id calls
is_open-failed key id (upload_part at upload number body) calls = refl
is_open-failed key id (copy_object at source condition) calls = refl
is_open-failed key id (copy_part at upload number source first last) calls = refl
is_open-failed key id (delete_object at) calls = refl
is_open-failed key id (create_upload at) calls = refl
is_open-failed key id (complete_upload at upload parts condition) calls = refl
is_open-failed key id (abort_upload at upload) calls = refl

-- An upload is named by its own key and id.
names_refl : (key id : String) → names key (some id) key id ≡ true
names_refl key id = and-intro _ _ ((eq_iff key key).1 refl) ((eq_iff id id).1 refl)
  where
    and-intro : (a b : Bool) → a ≡ true → b ≡ true → a && b ≡ true
    and-intro true b e e' = e'
    and-intro false b e e' = absurd cc

-- An upload that is named has this key and this id.
pub names-same :
    (at other key id : String) → names at (some other) key id ≡ true → (at ≡ key) × (other ≡ id)
names-same at other key id e =
    let (keys, ids) = and-true (str_eq at key) (str_eq other id) e in
    ((eq_iff at key).0 keys, (eq_iff other id).0 ids)

module _ (c : Setting) where
  -- What is open is the staging upload of `_upload_id` or the upload of `_copy_upload`.
  abbrev pub Known : Option String → Option (String × String) → Calls → Type 0
  Known upload copy calls =
      (key id : String)
      → is_open key id calls ≡ true
      → ((key ≡ c.staging_key) × (upload ≡ some id)) ⊎ (copy ≡ some (key, id))

  abbrev pub Tracked : Sink → Type 0
  Tracked s = Known s.upload_id s.copy_upload s.calls

  pub quiet-Tracked :
      (call : S3Call) (answer : Option String) (s : Sink)
      → IsQuiet call
      → Tracked s
      → Tracked (noted call answer s)
  quiet-Tracked call answer s quiet tracked = λ key id opened.
      tracked key id (sym (is_open-quiet key id call answer s.calls quiet) ∙ opened)

  -- What is closed is known no more.
  pub closed :
      (at : String) (upload : Option String) (key id : String) (rest : Bool)
      → not (names at upload key id) && rest ≡ true
      → (key ≡ at → upload ≡ some id → ⊥) × (rest ≡ true)
  closed at upload key id rest e =
      let (other, still) = and-true (not (names at upload key id)) rest e in
      (
        λ keys ids. absurd (
            cc (
              subst2 (λ k u. not (names k u key id) ≡ true) (sym keys) ids other,
              names_refl key id,
            )),
        still,
      )
    where
      subst2 :
          (P : String → Option String → Type 0) {a b : String} {u v : Option String}
          → a ≡ b
          → u ≡ v
          → P a u
          → P b v
      subst2 P {a} {b} {u} {v} e e' p = subst (λ w. P b w) e' (subst (λ k. P k u) e p)

  -- The staging upload is closed.
  pub unstage :
      (copy : Option (String × String)) (upload : Option String) (calls : Calls)
      → Known upload copy calls
      → (key id : String) → not (names c.staging_key upload key id) && is_open key id calls ≡ true
      → ((key ≡ c.staging_key) × (◌≡◌ {A = Option String} none (some id))) ⊎ (copy ≡ some (key, id))
  unstage copy upload calls known key id opened =
      let (other, still) = closed c.staging_key upload key id _ opened in
      elim (known key id still) [
        | inl (staging, there) ↦ absurd (other staging there)
        | inr copying ↦ inr copying
      ]

  -- The copy's upload is closed.
  pub uncopy :
      (at id : String) (upload : Option String) (calls : Calls)
      → Known upload (some (at, id)) calls
      → (key other : String) → not (names at (some id) key other) && is_open key other calls ≡ true
      → ((key ≡ c.staging_key) × (upload ≡ some other))
        ⊎ (◌≡◌ {A = Option (String × String)} none (some (key, other)))
  uncopy at id upload calls known key other opened =
      let (distinct, still) = closed at (some id) key other _ opened in
      elim (known key other still) [
        | inl staging ↦ inl staging
        | inr there ↦
            let (keys, ids) = parts-of at key id other there in absurd (distinct (sym keys) ids)
      ]
    where
      parts-of :
          (a b i j : String)
          → ◌≡◌ {A = Option (String × String)} (some (a, i)) (some (b, j))
          → (a ≡ b) × (◌≡◌ {A = Option String} (some i) (some j))
      parts-of a b i j e = (cc, cc)

  -- A step holds a property in the end if its first part does and what follows a return does.
  pub then_next-holds :
      {A B : Type 0} (P : Sink → Type 0) (r : SinkReply A) (next : A → Sink → SinkReply B)
      → P (r.1)
      → ((a : A) (t : Sink) → r ≡ (ok a, t) → P t → P (next a t).1)
      → P (then_next r next).1
  then_next-holds P (err fault, t) next first after = first
  then_next-holds P (ok a, t) next first after = after a t refl first

  pub if_full-holds :
      (P : Sink → Type 0) (full : Bool) (r : SinkReply (Unit {0})) (s : Sink)
      → P (r.1)
      → P s
      → P (if_full full r s).1
  if_full-holds P true r s first second = first
  if_full-holds P false r s first second = second

  pub if_more-holds :
      {A : Type 0} (P : Sink → Type 0) (more : Bool) (r done : SinkReply A)
      → P (r.1)
      → P (done.1)
      → P (if_more more r done).1
  if_more-holds P true r done first second = first
  if_more-holds P false r done first second = second

  -- Before the commit there is no copy.
  abbrev pub Staged : Sink → Type 0
  Staged s = Tracked s × (s.copy_upload ≡ none)

  -- A call that opens and closes nothing keeps what depends on the calls in this way.
  pub quiet-call :
      (call : S3Call) (s : Sink) → IsQuiet call → Staged s → Staged (call_client c call s).1
  unfolding call_client
  quiet-call call s quiet (tracked, uncopied) = (quiet-Tracked call _ s quiet tracked, uncopied)

  pub quiet-call_Tracked :
      (call : S3Call) (s : Sink) → IsQuiet call → Tracked s → Tracked (call_client c call s).1
  unfolding call_client
  quiet-call_Tracked call s quiet tracked = quiet-Tracked call _ s quiet tracked

  pub flush-Staged : (size : ℕ) (s : Sink) → Staged s → Staged (flush c size s).1
  unfolding flush
  flush-Staged size s staged =
      then_next-holds Staged
        (call_client c (part_call c size s) (with_buffer (drop size s.buffer) s)) _
        (quiet-call (part_call c size s) (with_buffer (drop size s.buffer) s) tt staged)
        (λ tag t returned staged'. staged')

  pub flush_while-Staged : (fuel : ℕ) (s : Sink) → Staged s → Staged (flush_while c fuel s).1
  unfolding flush_while
  flush_while-Staged zero s staged = staged
  flush_while-Staged (suc fuel) s staged =
      if_full-holds Staged (leb c.part_bytes (length s.buffer)) _ s
        (then_next-holds Staged (flush c c.part_bytes s) _ (flush-Staged c.part_bytes s staged)
          (λ u t returned staged'. flush_while-Staged fuel t staged'))
        staged

  pub write_all-Staged :
      (chunks : List (List ℕ)) (s : Sink) → Staged s → Staged (write_all c chunks s).1
  unfolding write_all write_chunk
  write_all-Staged [] s staged = staged
  write_all-Staged (chunk ∷ chunks) s staged =
      then_next-holds Staged (write_chunk c chunk s) _ (flush_while-Staged _ (taken chunk s) staged)
        (λ u t returned staged'. write_all-Staged chunks t staged')
