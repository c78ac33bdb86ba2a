-- ===== src/Runner/Examples.antt =====
-- A run of the runner for two symbols, one of them written in lower case.
use coinwhale_data_pipeline.Prelude.{refl, [], ◌∷◌, lower}
use coinwhale_data_pipeline.Runner.{tasks_of}
use coinwhale_data_pipeline.Runner.Streams.{SubscribedOnce, main-SubscribedOnce}

main-SubscribedOnce_example :
    SubscribedOnce ("BTCUSDT" ∷ "ethusdt" ∷ []) (tasks_of ("BTCUSDT" ∷ "ethusdt" ∷ []))
unfolding lower
main-SubscribedOnce_example =
    main-SubscribedOnce ("BTCUSDT" ∷ "ethusdt" ∷ []) ((refl, tt), (tt, tt))
