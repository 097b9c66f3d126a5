-- ===== src/Limiter/Check/Release.antt =====
-- Check and Release of internal/limiter/limiter.go over the batch scripts: the slots of a request. Check sees
-- the same error whether its script never ran or ran and its reply was lost.
pub mod Slots
use unirate.Prelude.{Option, none, some, List, [], ◌∷◌}
use unirate.Prelude.Text.{Bytes}
use unirate.Prelude.Int.{ℤ}
use unirate.Limiter.Check.{ConcHold}
use unirate.Limiter.Check.Prepare.{Backend}
use unirate.Limiter.Batch.{Numbers, Store, batch_check, release_conc}

-- What becomes of the call of a script.
pub data Network : Type 0 where
  replied not_sent reply_lost : Network

-- What the caller gets of a run of a script, and the store after it.
abbrev pub run_over : {D : Type 0} → Network → D → Option (List ℤ) × D → Option (List ℤ) × D
run_over replied d ran = ran
run_over not_sent d ran = (none, d)
run_over reply_lost d ran = (none, ran.1)

module _ (num : Numbers) (st : Store num.F) where
  -- The scripts as what Check calls.
  abbrev pub scripts : Network → Backend num.F
  scripts net = record {
    Db = st.Db;
    run = λ d keys rules id. run_over net d (batch_check num st d keys rules id);
    of_int64 = num.of_ℤ;
    divide = num.div;
  }

  release_keys : List Bytes → st.Db → Bytes → st.Db
  release_keys [] d id = d
  release_keys (k ∷ ks) d id = (release_conc num st d (k ∷ ks) id).1

  -- Release, of what Check gave to hold; the count of removed holds is dropped.
  pub release : Option ConcHold → st.Db → st.Db
  unfolding release_keys
  release none d = d
  release (some hold) d = release_keys hold.keys d hold.req_id
