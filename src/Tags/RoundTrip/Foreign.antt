-- ===== src/Tags/RoundTrip/Foreign.antt =====
-- Folders with names that Decode takes for its own tags.
use tdrive.Base.{[], Result, ◌>>=◌}
use tdrive.Names.Path.{Text}
use tdrive.Tags.Caption.{TagError}
use tdrive.Tags.Record.{Record, Classes}
use tdrive.Tags.Decode.{Parsed, of_version}
use tdrive.Tags.RoundTrip.Files.{gathered}

module _ (u : Classes) (r : Record) (caption t : Text) where
  abbrev seen : Parsed
  seen = gathered u r caption []

  abbrev finish : Result TagError Parsed → Result TagError Record
  finish x = x >>= λ g. of_version caption g (g.version)
