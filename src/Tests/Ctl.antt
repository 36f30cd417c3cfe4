-- ===== src/Tests/Ctl.antt =====
-- pispotctl on a host whose commands all succeed, with a daemon that knows one network.
use pispot.Base.{◌≡◌, refl, none, [], ◌∷◌, true}
use pispot.Authz.Client.{received}
use pispot.Ctl.{World}
use pispot.Ctl.Main.{main}
use pispot.Ctl.Main.Guards.{Refuses, main-Refuses, main-masking}
use pispot.Ctl.Networks.Passwords.{masking}
use pispot.Go.Bytes.{lit}
use pispot.Host.{found}
use pispot.Socket.{no_response}
use pispot.Tests.Wifi.{tables, network}

abbrev world : World
world = record {
  unicode = tables;
  uid = 1000;
  now = lit "2026-01-01T00:00:00Z";
  host = record { stat = λ path. found; exec = λ ran argv. record { output = []; failed = none } };
  is_active = λ ran name. lit "active\n";
  daemon = λ q.
      received (record no_response { success = true; networks = network "Cafe" "espresso!" ∷ [] });
}

main-Refuses_example : Refuses [] (main world (lit "logs" ∷ []) [])
main-Refuses_example = main-Refuses world (lit "logs" ∷ []) [] refl

abbrev root_world : World
root_world = record world { uid = 0 }

main-masking_example :
    main (masking root_world) (lit "wifi" ∷ lit "list" ∷ []) []
    ≡ main root_world (lit "wifi" ∷ lit "list" ∷ []) []
main-masking_example = main-masking root_world (lit "list" ∷ []) []
