-- ===== src/Tests/Options.antt =====
-- Command lines of the loader.
use curl_loader.Base.{◌≡◌, refl, true, false, none, some, [], ◌∷◌, ok}
use curl_loader.Config.Chars.{bytes, atoi}
use curl_loader.Config.CommandLine.{default_settings, accepted, refused, parse_command_line}

-- `-v -t 8 -f x.conf`
three_options :
    parse_command_line default_settings
      ((b'v', none) ∷ (b't', some (bytes "8")) ∷ (b'f', some (bytes "x.conf")) ∷ [])
      false
    ≡ ok (
        accepted (record default_settings {
          verbose_logging = 1;
          threads_subbatches_num = 8;
          config_file = bytes "x.conf";
        }))
unfolding parse_command_line atoi
three_options = refl

-- `-t 1`
one_thread : parse_command_line default_settings ((b't', some (bytes "1")) ∷ []) false ≡ ok refused
unfolding parse_command_line atoi
one_thread = refl

-- `-v file`
no_option : parse_command_line default_settings ((b'v', none) ∷ []) true ≡ ok refused
unfolding parse_command_line atoi
no_option = refl
