-- ===== src/Handler/Calls/Browser.antt =====
-- The calls that open and close a browser, check the address and capture the evidence are quiet.
use price_scout.Base.{true, ◌≡◌, refl, List}
use price_scout.Base.Text.{Text}
use price_scout.Outside.{
  Platform, Outside, Session, Call, dns_lookup, make_directory, write_file, screenshot, snapshot,
}
use price_scout.Outside.Act.{call}
use price_scout.Outside.Makes.{Makes, makes_rules, Makes-call, both-Makes}
use price_scout.Safety.Url.{check_host, validate_target_url}
use price_scout.Safety.Replay.Calls.{Allows, is_quiet}
use price_scout.Artifacts.{write_evidence, capture_evidence}

module _ (p : Platform) {o : Outside} {P : Call → Type 0} (allows : Allows p.unicode P) where
  open allows use {quiet}

  quiet_call : (c : Call) → is_quiet c ≡ true → Makes P {o = o} (call c)
  quiet_call c e = Makes-call c (quiet c e)

  lookup-Makes : (t : Text) → Makes P {o = o} (call (dns_lookup t))
  lookup-Makes t = quiet_call (dns_lookup t) refl

  host-Makes : (l : List Text) (t : Text) → Makes P {o = o} (check_host p l t)
  unfolding check_host
  host-Makes l t = search (makes_rules, lookup-Makes) depth 14

  pub validate-Makes : (t : Text) (l : List Text) → Makes P {o = o} (validate_target_url p t l)
  unfolding validate_target_url
  validate-Makes t l = search (makes_rules, host-Makes) depth 14

  module _ (run : Session) where
    folder-Makes : (t : Text) → Makes P {o = o} (call (make_directory t))
    folder-Makes t = quiet_call (make_directory t) refl

    file-Makes : (t bytes : Text) → Makes P {o = o} (call (write_file t bytes))
    file-Makes t bytes = quiet_call (write_file t bytes) refl

    image-Makes : Makes P {o = o} (call (screenshot run))
    image-Makes = quiet_call (screenshot run) refl

    tree-Makes : Makes P {o = o} (call (snapshot run))
    tree-Makes = quiet_call (snapshot run) refl

    write-Makes : (directory id : Text) → Makes P {o = o} (write_evidence p run directory id)
    unfolding write_evidence
    write-Makes directory id =
        search (makes_rules, folder-Makes, image-Makes, tree-Makes, file-Makes, both-Makes) depth 20

    pub capture-Makes : (root id : Text) → Makes P {o = o} (capture_evidence p run root id)
    unfolding capture_evidence
    capture-Makes root id = search (makes_rules, write-Makes) depth 12
