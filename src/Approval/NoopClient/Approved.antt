-- ===== src/Approval/NoopClient/Approved.antt =====
-- What the client that approves everything answers.
use microservice_diagnosis.Prelude.{
  ◌+◌, String, false, none, some, ltb, str_eq, eq_iff, ◌≡◌, refl, ap, ◌∙◌, if◌then◌else◌,
}
use microservice_diagnosis.Store.Rows.{Time}
use microservice_diagnosis.Approval.Tokens.{
  ApprovalRequest, Tokens, default_ttl, entry_of, unless_expired, get, issue,
}
use microservice_diagnosis.Approval.Tokens.Lookup.{entry_of-resolve, entry_of-resolve_other}
use microservice_diagnosis.Approval.NoopClient.{auto_approval, request_approval, get_approval}

own_entry :
    (token : String) (now : Time) (req : ApprovalRequest) (ts : Tokens)
    → entry_of token (request_approval (some token) now req ts).1
      ≡ some (record {
        req = req;
        result = some (auto_approval now);
        created = now;
        expires = now + default_ttl;
      })
unfolding request_approval entry_of
own_entry token now req ts =
    entry_of-resolve token (auto_approval now) (issue (some token) now req ts).1
    ∙ rw ((eq_iff token token).1 refl) refl

-- A request for approval is answered with its token. For the next 24 hours the token gives back the
-- request, as approved at the time of the request, and afterwards an error; the answer for another
-- token is as before.
pub request_approval-get_approval :
    (token other : String) (now later : Time) (req : ApprovalRequest) (ts : Tokens)
    → str_eq token other ≡ false
    → ((request_approval (some token) now req ts).0 ≡ some token)
      × (get_approval later token (request_approval (some token) now req ts).1
          ≡ (if ltb (now + default_ttl) later then none else some (req, some (auto_approval now))))
      × (get_approval later other (request_approval (some token) now req ts).1
          ≡ get_approval later other ts)
unfolding request_approval get_approval get entry_of
request_approval-get_approval token other now later req ts apart =
    let issued = (issue (some token) now req ts).1 in
    (
      refl,
      simp (own_entry token now req ts) refl,
      ap (unless_expired later)
          (entry_of-resolve_other token other (auto_approval now) issued apart ∙ rw apart refl),
    )
