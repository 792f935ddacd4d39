-- ===== src/Diagnostics/Sanitize.antt =====
-- What `sanitizeEvidence` of pkg/mot/diagnostics.go lets through, read as a map.
use mongo_overview_tool.Base.Search.{any_none, any-map, any-ext}
use mongo_overview_tool.Base.Sort.{count-sort_stable, any-sort_stable}
use mongo_overview_tool.Base.{
  sym, count, Bool-cases, inr, inl, codes, ◌==◌, not, ℕ, lower, keep, contains, refl, ap, map, ◌∙◌,
  ◌&&◌, any, Bool, false, ◌≡◌, String, List, [], ◌∷◌, Option, none, some, arith, str_eq, eq_iff,
  if◌then◌else◌,
}
use mongo_overview_tool.Diagnostics.{
  contains_token, without_underscores, text, finding_less, sanitize_finding, DiagnosticFinding,
  sanitize_and_sort_findings, Value, is_sensitive_diagnostic_key, sanitize_evidence,
}

-- evidence[key]
unfoldable pub evidence_at : String → List (String × Value) → Option Value
evidence_at key [] = none
evidence_at key ((k, v) ∷ rest) = if str_eq k key then some v else evidence_at key rest

evidence_at-kept :
    (key : String) (evidence : List (String × Value))
    → evidence_at key (sanitize_evidence evidence)
      ≡ (if is_sensitive_diagnostic_key key then none else evidence_at key evidence)
unfolding evidence_at sanitize_evidence
evidence_at-kept key [] = ground arith
evidence_at-kept key ((k, v) ∷ rest) = ground (arith, eq_iff k key, evidence_at-kept key rest)

-- Sanitizing and sorting do not change which of the sanitized findings there are.
pub any-sanitize_and_sort_findings :
    (p : DiagnosticFinding → Bool) (findings : List DiagnosticFinding)
    → any p (sanitize_and_sort_findings findings) ≡ any (λ f. p (sanitize_finding f)) findings
unfolding sanitize_and_sort_findings
any-sanitize_and_sort_findings p findings =
    any-sort_stable finding_less p (map sanitize_finding findings)
    ∙ any-map p sanitize_finding findings

is_text : String → Option Value → Bool
is_text name (some (text t)) = str_eq t name
is_text name value = false

-- A finding with a code that passes a test.
unfoldable pub has : String → (DiagnosticFinding → Bool) → DiagnosticFinding → Bool
has code p f = str_eq f.code code && p f

-- Its evidence has a text under a key.
unfoldable pub evidence_says : String → String → DiagnosticFinding → Bool
unfolding is_text evidence_at
evidence_says key name f = is_text name (evidence_at key f.evidence)

abbrev pub says : String → String → String → DiagnosticFinding → Bool
says code key name = has code (evidence_says key name)

-- A test that the removal of sensitive keys does not change.
abbrev pub IsPublic : (DiagnosticFinding → Bool) → Type 0
IsPublic p = (f : DiagnosticFinding) → p (sanitize_finding f) ≡ p f

pub evidence_says-IsPublic :
    (key name : String)
    → is_sensitive_diagnostic_key key ≡ false
    → IsPublic (evidence_says key name)
unfolding evidence_says sanitize_finding
evidence_says-IsPublic key name h f = rw (evidence_at-kept key f.evidence) (rw h)

has-sanitize_finding :
    (code : String) (p : DiagnosticFinding → Bool) (f : DiagnosticFinding)
    → IsPublic p
    → has code p (sanitize_finding f) ≡ has code p f
unfolding has sanitize_finding
has-sanitize_finding code p f h = ap (λ b. str_eq f.code code && b) (h f)

pub any-has :
    (code : String) (p : DiagnosticFinding → Bool) (findings : List DiagnosticFinding)
    → IsPublic p
    → any (has code p) (sanitize_and_sort_findings findings) ≡ any (has code p) findings
any-has code p findings h =
    any-sanitize_and_sort_findings (has code p) findings
    ∙ any-ext (λ f. has code p (sanitize_finding f)) (has code p) findings
        (λ f. has-sanitize_finding code p f h)

-- What the public evidence must not name.
abbrev pub private_words : List String
private_words =
    "command" ∷ "filter" ∷ "pipeline" ∷ "password" ∷ "credential" ∷ "uri" ∷ "client" ∷ "username"
    ∷ "user" ∷ "session" ∷ "lsid" ∷ "transactionid" ∷ "servererror" ∷ []

-- A key has such a word, in small or capital letters and with or without underscores.
abbrev pub is_private : String → Bool
is_private key =
    any (λ word. contains (lower (keep (λ c. not (c == b'_')) (codes key))) (codes word))
      private_words

without_underscores_lem : (key : List ℕ) → without_underscores key ≡ keep (λ c. not (c == b'_')) key
unfolding without_underscores keep
without_underscores_lem [] = refl
without_underscores_lem (c ∷ cs) = ground (arith, without_underscores_lem cs)

is_private_lem : (key : String) → is_sensitive_diagnostic_key key ≡ is_private key
unfolding is_sensitive_diagnostic_key contains_token any
is_private_lem key = rw (without_underscores_lem (codes key)) refl

none_private :
    (evidence : List (String × Value))
    → any (λ e. is_private e.0) (sanitize_evidence evidence) ≡ false
unfolding sanitize_evidence keep any
none_private [] = refl
none_private ((key, value) ∷ rest) = elim (Bool-cases (is_sensitive_diagnostic_key key)) [
  | inl e ↦ rw e (none_private rest)
  | inr e ↦ rw (e, any) (rw (sym (is_private_lem key) ∙ e) (none_private rest))
]

count-sanitized :
    (key : String) (q : String → Option Value → Bool) (findings : List DiagnosticFinding)
    → is_private key ≡ false
    → count (λ f. q f.code (evidence_at key f.evidence)) (map sanitize_finding findings)
      ≡ count (λ f. q f.code (evidence_at key f.evidence)) findings
unfolding count sanitize_finding
count-sanitized key q [] h = refl
count-sanitized key q (f ∷ fs) h =
    rw (count-sanitized key q fs h)
      (rw (evidence_at-kept key f.evidence) (rw (is_private_lem key ∙ h) refl))

-- No public finding has an entry under a key in which one of the 13 private words stands, such as
-- password, uri, user or session, however its letters are capitalized and with or without underscores
-- in it. What the findings have under any other key is kept: as many have a given code and a given
-- value there as before.
pub sanitize_and_sort_findings_private :
    (findings : List DiagnosticFinding) (key : String) (q : String → Option Value → Bool)
    → is_private key ≡ false
    → (any (λ f. any (λ e. is_private e.0) f.evidence) (sanitize_and_sort_findings findings)
        ≡ false)
      × (count (λ f. q f.code (evidence_at key f.evidence)) (sanitize_and_sort_findings findings)
          ≡ count (λ f. q f.code (evidence_at key f.evidence)) findings)
unfolding sanitize_finding
sanitize_and_sort_findings_private findings key q h = (
  any-sanitize_and_sort_findings (λ f. any (λ e. is_private e.0) f.evidence) findings
      ∙ any_none (λ f. any (λ e. is_private e.0) (sanitize_evidence f.evidence)) findings
          (λ f. none_private f.evidence),
  unfold sanitize_and_sort_findings in
      count-sort_stable finding_less (λ f. q f.code (evidence_at key f.evidence))
        (map sanitize_finding findings)
      ∙ count-sanitized key q findings h,
)
