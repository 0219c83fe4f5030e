-- ===== src/Process/Examples.antt =====
-- Lines from a server, and nicks that are ignored.
use oftc_blitzed.Base.{◌≡◌, refl, [], ◌∷◌, arith, codes, some}
use oftc_blitzed.Process.{
  process, split_buf, split_source, split_command, isspace, word_of, after_word, skip_spaces,
}
use oftc_blitzed.Text.{strscpy}
use oftc_blitzed.Process.Lines.{process-print_message}
use oftc_blitzed.Process.Ignore.{Table}

privmsg :
    process (codes ":amy PRIVMSG  NickServ :identify a b")
    ≡ some (record {
      source = codes "amy";
      cmd = codes "PRIVMSG";
      av = codes "NickServ" ∷ codes "identify a b" ∷ [];
    })
unfolding process split_buf split_source split_command isspace word_of after_word skip_spaces
    strscpy
privmsg = refl

process-print_message_example :
    process (codes ":amy MODE #a :+s t")
    ≡ some
        (record { source = codes "amy"; cmd = codes "MODE"; av = codes "#a" ∷ codes "+s t" ∷ [] })
unfolding isspace
process-print_message_example =
    process-print_message (codes "amy") (codes "MODE") (codes "#a" ∷ []) (some (codes "+s t"))
      (ground arith) (ground arith) (ground arith) (omega arith) (omega arith) (omega arith)

abbrev bob_ignored : Table
bob_ignored = λ i. record { who = codes "Bob"; time = 50 } ∷ []
