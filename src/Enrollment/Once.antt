-- ===== src/Enrollment/Once.antt =====
-- A challenge of server/src/pki/enrollment.ts is used once, and a token opens no challenge once one
-- of its enrollments is complete.
use vorcaro_ledger.Prelude.{
  Option, none, some, Text, text_eq, text_eq_refl, find, find-some, find-update_where, Option-cases,
  ◌≡◌, refl, sym, ap, ◌∙◌, inl, inr, arith,
}
use vorcaro_ledger.Protocol.Result.{ok}
use vorcaro_ledger.Protocol.Crypto.{
  Host, sha256_digest, EncodesAscii, constant_time_equal-sha256_digest,
}
use vorcaro_ledger.Database.Tables.{Db, EnrollmentTokenRow, EnrollmentChallengeRow}
use vorcaro_ledger.Database.Returns.{Returns, read-Returns}
use vorcaro_ledger.Enrollment.Service.{
  PkiService, CompleteEnrollmentInput, CompleteEnrollmentResult, BeginEnrollmentInput,
  EnrollmentChallenge,
}
use vorcaro_ledger.Enrollment.Statements.{
  find_token, find_challenge, consume_token, consume_challenge,
}
use vorcaro_ledger.Enrollment.Tokens.{
  hash_enrollment_token, check_token, get_usable_token, begin_enrollment,
}
use vorcaro_ledger.Enrollment.Completion.{complete_enrollment}
use vorcaro_ledger.Enrollment.Effects.{complete_enrollment-Enrolled}

consumed_challenge :
    (id now : Text) (db db' : Db) (challenge : EnrollmentChallengeRow)
    → find_challenge id db ≡ some challenge
    → db'.enrollment_challenges ≡ (consume_challenge challenge.id now db).enrollment_challenges
    → find_challenge id db' ≡ some (record challenge { consumed_at = some now })
unfolding find_challenge consume_challenge
consumed_challenge id now db db' challenge found same =
    rw
      (
        same,
        find-update_where (λ (c : EnrollmentChallengeRow). text_eq c.id id)
            (λ c. text_eq c.id challenge.id) (λ c. record c { consumed_at = some now }) (λ c. refl)
            db.enrollment_challenges,
        found,
        text_eq_refl challenge.id,
      )
      refl

taken :
    {now : Text} (c d d' : EnrollmentChallengeRow)
    → d.consumed_at ≡ some now
    → some d ≡ some d'
    → d'.consumed_at ≡ none
    → ⊥
taken c d d' used same unused = ground (arith, used, same, unused)

consumed_token :
    (token_hash now : Text) (db db' : Db) (token : EnrollmentTokenRow)
    → db'.enrollment_tokens ≡ (consume_token token_hash now db).enrollment_tokens
    → find_token token_hash db' ≡ some token
    → token.consumed_at ≡ some now
unfolding find_token consume_token
consumed_token token_hash now db db' token same found =
    let seen =
      sym (
        find-update_where (λ (t : EnrollmentTokenRow). text_eq t.token_hash token_hash)
          (λ t. text_eq t.token_hash token_hash) (λ t. record t { consumed_at = some now })
          (λ t. refl) db.enrollment_tokens)
      ∙ ap (find (λ t. text_eq t.token_hash token_hash)) (sym same)
      ∙ found in
    elim (Option-cases
      (find (λ (t : EnrollmentTokenRow). text_eq t.token_hash token_hash) db.enrollment_tokens)) [
        | inl nothing ↦ absurd (ground (arith, seen, nothing))
        | inr (t, there) ↦ ground (
          arith,
          seen,
          there,
          find-some (λ (t : EnrollmentTokenRow). text_eq t.token_hash token_hash)
              db.enrollment_tokens t there,
        )
      ]

module _ (s : PkiService) (input : CompleteEnrollmentInput) (db : Db)
    (result : CompleteEnrollmentResult) (db' : Db) where
  -- After an enrollment that returned, no call with its challenge returns.
  pub complete_enrollment_once :
      Returns (complete_enrollment s input) db result db'
      → (s' : PkiService) (input' : CompleteEnrollmentInput) (result' : CompleteEnrollmentResult)
        (db'' : Db)
      → input'.challenge_id ≡ input.challenge_id
      → ¬ Returns (complete_enrollment s' input') db' result' db''
  complete_enrollment_once done s' input' result' db'' same again =
      let first = complete_enrollment-Enrolled s input db result db' done in
      let second = complete_enrollment-Enrolled s' input' db' result' db'' again in
      let used =
        consumed_challenge input.challenge_id s.now db db' first.challenge first.warrant.found
          first.challenges in
      let found = second.warrant.found in
      let unused = second.warrant.unused in
      absurd (
        clash input.challenge_id input'.challenge_id first.challenge second.challenge same used
          found unused)
    where
      clash :
          (id id' : Text) (c c' : EnrollmentChallengeRow)
          → id' ≡ id
          → find_challenge id db' ≡ some (record c { consumed_at = some s.now })
          → find_challenge id' db' ≡ some c'
          → c'.consumed_at ≡ none
          → ⊥
      clash id id' c c' same used found unused =
          let found' = ap (λ i. find_challenge i db') (sym same) ∙ found in
          let both : some (record c { consumed_at = some s.now }) ≡ some c' = sym used ∙ found' in
          taken c (record c { consumed_at = some s.now }) c' refl both unused

  usable :
      (s' : PkiService) (token_hash : Text) (o : Option EnrollmentTokenRow)
      (token : EnrollmentTokenRow)
      → check_token s' token_hash o ≡ ok token
      → (o ≡ some token) × (token.consumed_at ≡ none)
  unfolding check_token
  usable s' token_hash none token h = absurd (cc)
  usable s' token_hash (some t) token h = ground (arith, h)

  -- After an enrollment that returned, a service on the same host opens no challenge for its token,
  -- where no other text is encoded as an ASCII text is and digests are ASCII.
  pub begin_enrollment_once :
      EncodesAscii s.host
      → Returns (complete_enrollment s input) db result db'
      → (s' : PkiService) (input' : BeginEnrollmentInput) (challenge : EnrollmentChallenge)
        (db'' : Db)
      → s'.host ≡ s.host
      → input'.token ≡ input.token
      → ¬ Returns (begin_enrollment s' input') db' challenge db''
  unfolding begin_enrollment get_usable_token hash_enrollment_token
  begin_enrollment_once encodes done s' input' challenge db'' host same again =
      let first = complete_enrollment-Enrolled s input db result db' done in
      let (token, checked, rest) = read-Returns _ _ again in
      let (found, unused) =
        usable s' (hash_enrollment_token s' input'.token)
          (find_token (hash_enrollment_token s' input'.token) db') token checked in
      let hash : first.challenge.token_hash ≡ hash_enrollment_token s input.token =
        constant_time_equal-sha256_digest s.host encodes first.challenge.token_hash
          (s.host.utf8 input.token) first.warrant.of_token in
      let hash_same : hash_enrollment_token s' input'.token ≡ hash_enrollment_token s input.token =
        ap (λ (h : Host). sha256_digest h (h.utf8 input'.token)) host
        ∙ ap (λ t. sha256_digest s.host (s.host.utf8 t)) same in
      let found' : find_token first.challenge.token_hash db' ≡ some token =
        ap (λ h. find_token h db') (hash ∙ sym hash_same) ∙ found in
      let used = consumed_token first.challenge.token_hash s.now db db' token first.tokens found' in
      absurd (cc)
