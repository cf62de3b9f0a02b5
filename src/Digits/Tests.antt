-- ===== src/Digits/Tests.antt =====
-- top.c with the stack at 7.
use gjworks.Common.{◌≡◌, ◌++◌, not, true}
use gjworks.Digits.{main}
use gjworks.Digits.Laws.{chosen, are_close, is_left_out, main-chosen}

main-chosen_example :
    main 7
    ≡ chosen (λ j. not (are_close j)) 69 31
      ++ (chosen (λ j. not (is_left_out j)) 900 100 ++ chosen (λ j. true) 2000 1000)
main-chosen_example = main-chosen 7
